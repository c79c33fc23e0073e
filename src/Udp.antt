-- ===== src/Udp.antt =====
-- biz/services/udp_server: the UDP tracker protocol. `Parse` is parse.go, `Connect` is connect.go,
-- `Serve` is announce.go and server.go.
pub mod Parse
pub mod Connect
pub mod Serve
pub mod Packet
pub mod Answer
pub mod Session
pub mod Expiry
mod Tests
