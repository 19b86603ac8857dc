-- ===== src/Redaction.antt =====
-- crates/mcp/src/secrets.rs: how credentials are removed from a text, which is the list of its bytes.
pub mod Spans
pub mod Escapes
mod Merging
mod Mask
mod Settled
mod Masking
mod Redacting
mod Fitting
mod Tracing
mod Origins
mod Views
mod Tests
