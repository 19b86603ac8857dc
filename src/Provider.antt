-- ===== src/Provider.antt =====
-- crates/providers/src/lib.rs and retry.rs: the errors of a provider and their retries.
mod Errors
pub mod Retry
mod Tests
pub use Errors.*
unfoldable pub use Errors.{cancelled_error, is_retryable, charge, retry_after}
