-- ===== src/Threadpool.antt =====
-- src/threadpool.rs: priorities, the builder and its calls of Win32, and the task queues.
pub mod Priority
pub mod Builder
pub mod Tasks
pub mod Handle
pub mod Pool
pub mod Life
