-- ===== src/Transfers.antt =====
-- The services of src/server/services/transfers: what is modelled of them.
pub mod Types
pub mod Watch
pub mod LinkMap
pub mod VoShares
pub mod Selection
pub mod Given
pub mod OnePerLink
pub mod Canceler
pub mod Rounds
pub mod Watching
pub mod Local
pub mod Stalled
pub mod Spares
pub mod Signals
mod Examples
