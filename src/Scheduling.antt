-- ===== src/Scheduling.antt =====
-- TransfersService.cpp and TransferFileHandler.cpp of src/server/services/transfers: what a run starts.
pub mod Types
pub mod Handler
pub mod Ready
pub mod Turns
pub mod StaysReady
pub mod Amounts
pub mod Stock
pub mod Built
pub mod Building
pub mod Constructor
pub mod New
pub mod Handed
pub mod Slots
pub mod Serve
pub mod Keeps
pub mod Steps
pub mod Ends
pub mod Started
pub mod Runs
pub mod Once
pub mod Limits
pub mod Budget
pub mod Within
pub mod Service
pub mod Given
pub mod OneVo
mod Examples
