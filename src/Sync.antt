-- ===== src/Sync.antt =====
-- The asynchronous synchronisation primitives of include/process: mutex.hpp, rwlock.hpp, queue.hpp.
pub mod Mutex
pub mod ReadWriteLock
pub mod Queue
