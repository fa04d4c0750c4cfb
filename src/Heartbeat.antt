-- ===== src/Heartbeat.antt =====
-- src/server/services/heartbeat: a server tells the others that it is alive, or stops itself.
pub mod Service
pub mod Alive
mod Examples
