-- ===== src/Executor.antt =====
-- The start of one transfer (FileTransferExecutor.cpp).
pub mod Protocol
pub mod Settings
pub mod Build
pub mod Numbers
pub mod Steps
pub mod Transfers
pub mod Parameters
pub mod Accepts
pub mod Run
pub mod Claims
pub mod Once
pub mod Samples
mod Examples
mod RunExamples
