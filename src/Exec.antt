-- ===== src/Exec.antt =====
-- internal/exec: how a request walks the router candidates.
pub mod Advance
pub mod Budget
pub mod Billing
pub mod Commit
pub mod RawStream
pub mod Forward
pub mod Attempts
pub mod Attempt
pub mod Request
mod Examples
