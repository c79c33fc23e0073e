-- ===== src/Config.antt =====
-- The part of biz/config/init.go that the modelled code reads. TTL is a number of seconds, not
-- negative.
pub mod Defaults
mod Tests
use trunker.Base.{ℕ, Bool}
use trunker.Base.Bytes.{Bytes}

pub record Config : Type 0 where
  pub cache_enable : Bool
  pub ttl : ℕ
  pub use_announce_ip : Bool
  pub enable_event_producer : Bool
  pub max_peers_per_torrent : ℕ
  pub tracker_id : Bytes

-- Times and durations are in nanoseconds.
abbrev pub second : ℕ
second = 1_000_000_000
