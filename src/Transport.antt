-- ===== src/Transport.antt =====
-- app/transport: APDU frames on a TCP stream.
pub mod ApduCodec
pub mod Frames
pub mod TcpServer
pub mod Session
pub mod Serving
pub mod TcpProtocol
pub mod Stream
