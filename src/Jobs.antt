-- ===== src/Jobs.antt =====
-- The states of files and jobs in the database (MySqlAPI.cpp).
pub mod Types
pub mod Tables
pub mod Lifecycle
pub mod Replicas
pub mod Files
pub mod Status
pub mod Follows
pub mod Updates
pub mod Closed
pub mod Sound
pub mod History
pub mod Counting
pub mod Finished
pub mod Earned
pub mod Settles
pub mod Accepted
pub mod Examples
