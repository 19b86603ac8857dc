-- ===== src/Tui.antt =====
-- crates/tui: the state of the terminal interface.
pub mod Events
pub mod App
pub mod Applying
pub mod Rows
pub mod Keys
mod Visits
mod Fuel
mod Upkeep
mod Selecting
mod Quitting
mod Trees
mod Tests
