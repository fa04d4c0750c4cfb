-- ===== src/ConcurrentQueue.antt =====
-- src/common/ConcurrentQueue: the bounded queue between the threads that read and send messages.
pub mod Queue
pub mod Order
mod Examples
