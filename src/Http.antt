-- ===== src/Http.antt =====
-- biz/handler/announce.go and what it answers with.
pub mod Compact
pub mod Announce
pub mod Bencode
pub mod Client
mod Tests
