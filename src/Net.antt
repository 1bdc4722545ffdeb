-- ===== src/Net.antt =====
-- src/net: TCP and address resolution.
pub mod Tcp
pub mod Sockaddr
