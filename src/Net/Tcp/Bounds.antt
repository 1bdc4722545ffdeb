-- ===== src/Net/Tcp/Bounds.antt =====
-- src/io/read/mod.rs, src/io/read/ext.rs and src/net/tcp/read.rs: reads into slices of any length.
use wae.Io.Slice.{Slice}
use wae.Net.Tcp.Stream.{Stream}
