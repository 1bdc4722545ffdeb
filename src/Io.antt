-- ===== src/Io.antt =====
-- src/io: the asynchronous read and write interfaces, and the shared state behind them.
pub mod State
pub mod Cell
pub mod Waker
pub mod Handle
pub mod Race
pub mod Event
pub mod Slice
pub mod Fill
pub mod Chain
pub mod Read
pub mod Write
