-- ===== src/Net/Sockaddr.antt =====
-- src/net/sockaddr: what is turned into socket addresses, and how.
pub mod Host
pub mod Info
pub mod Addrs
pub mod Dropping
