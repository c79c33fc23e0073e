-- ===== src/Local.antt =====
-- biz/services/peer/local: the in-memory manager of one shard. `Root` has the methods of
-- InfoHashRoot, `Manager` those of Manager that local.go defines, `Clean` those of clean.go.
pub mod Root
pub mod Manager
pub mod Handlers
pub mod Scrape
pub mod Clean
pub mod System
pub mod Respond
pub mod Tally
pub mod Cleaned
pub mod Capacity
mod Tests
