-- ===== src/Runtime.antt =====
-- crates/core/src/runtime.rs: the loop of one agent, the attempts of one request, and the directory
-- by which agents address one another.
pub mod World
pub mod Calls
pub mod Deliveries
pub mod Directory
pub mod Turns
pub mod Conversation
pub mod Keeping
pub mod Answering
pub mod Steps
pub mod Replies
pub mod Agents
pub mod Contracts
pub mod Attempts
pub mod Attempting
pub mod Accounts
pub mod Accounting
pub mod Finishing
pub mod Retrying
mod Tests
