-- ===== src/Optimizer.antt =====
-- server/services/optimizer: the number of connections and of streams for each link.
pub mod Types
pub mod Decide
pub mod Connections
pub mod Streams
pub mod Run
pub mod PairOrder
pub mod Bounds
pub mod Values
pub mod Shares
pub mod Start
mod Examples
