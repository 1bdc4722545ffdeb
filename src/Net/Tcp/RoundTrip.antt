-- ===== src/Net/Tcp/RoundTrip.antt =====
-- src/net/tcp/read.rs and src/net/tcp/write.rs with src/io/read/ext.rs and src/io/write/ext.rs: what one
-- end of a connection writes is what the other end reads.
use wae.Net.Tcp.Stream as Streams
use wae.Net.Tcp.Sender as Senders
use wae.Net.Tcp.Stream.{Stream}
use wae.Net.Tcp.Sender.{Sender}
