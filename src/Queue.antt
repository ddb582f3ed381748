-- ===== src/Queue.antt =====
-- The queues between the threads: src/common/BlockingQueue.{h,cpp} and src/common/SpscQueue.h.
pub mod Blocking
pub mod Spsc
mod Tests
