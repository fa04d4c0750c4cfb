-- ===== src/Messages.antt =====
-- MessageProcessingService.cpp of src/server/services/transfers, with what it asks of the database.
pub mod Retries
pub mod Terminate
pub mod Process
pub mod Ended
pub mod Follows
pub mod Throws
pub mod Held
pub mod Kept
pub mod Tried
pub mod Stored
pub mod NotLost
pub mod Limit
mod Examples
