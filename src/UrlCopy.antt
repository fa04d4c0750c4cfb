-- ===== src/UrlCopy.antt =====
-- url-copy: the process that runs the transfers of one job.
pub mod Heuristics
pub mod Errno
pub mod Timeout
pub mod Redaction
pub mod Types
pub mod Transfer
pub mod Guarantees
pub mod Setup
pub mod Process
pub mod Reports
pub mod Completion
mod Examples
