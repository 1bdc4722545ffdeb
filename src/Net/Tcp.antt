-- ===== src/Net/Tcp.antt =====
-- src/net/tcp: sockets, streams and listeners.
pub mod Socket
pub mod Transfer
pub mod Stream
pub mod Sender
pub mod RoundTrip
pub mod Drops
pub mod Attempts
pub mod Connect
pub mod Listen
pub mod Accept
pub mod Accessors
pub mod Split
pub mod Bounds
pub mod Resolve
