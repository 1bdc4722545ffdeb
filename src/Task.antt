-- ===== src/Task.antt =====
-- src/task: waking, blocking and yielding.
pub mod Waker
pub mod BlockOn
pub mod Util
pub mod Join
pub mod Executor
