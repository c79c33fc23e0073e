-- ===== src/Tracker.antt =====
-- biz/services/peer/manager.go: the interface PeerManager, as far as the servers of announces and
-- scrapes call it. `State` is the manager's state; an error is its message.
use trunker.Base.{ℕ, Option, List}
use trunker.Base.Bytes.{Bytes}
use trunker.Peer.{Peer}
use trunker.Local.Scrape.{Statistic}
use trunker.Xdp.{IpFilterStats}
use trunker.Request.{AnnounceRequest, ScrapeFile}

-- A value or the message of an error.
pub data Outcome (A : Type 0) : Type 0 where
  done : A → Outcome A
  failed : Bytes → Outcome A

pub record PeerManager : Type 1 where
  pub State : Type 0
  pub handle_announce_peer : AnnounceRequest → State → State × Outcome (List Peer)
  pub scrape : Bytes → State → State × Outcome ScrapeFile

-- A call that changes the state and may fail, and the early return of `if err != nil`.
abbrev pub Action : Type 0 → Type 0 → Type 0
Action S A = S → S × Outcome A

module _ {S A B : Type 0} where
  abbrev pub and_then : (A → Action S B) → S × Outcome A → S × Outcome B
  and_then f (s, done a) = f a s
  and_then f (s, failed e) = (s, failed e)

  infixl 5 ◌>>=◌
  abbrev pub ◌>>=◌ : Action S A → (A → Action S B) → Action S B
  ◌>>=◌ a f s = and_then f (a s)

abbrev pub return : {S A : Type 0} → A → Action S A
return a s = (s, done a)

-- common.StatisticInfo; the shards have none of their own.
pub record StatisticInfo : Type 0 where
  pub total_peers : ℕ
  pub total_torrents : ℕ
  pub shards : List (Bytes × Statistic)

-- The interface as the handlers of the administration and the RPC server call it. Clean and the two
-- calls for snapshots have no part in it.
pub record AdminManager : Type 1 where
  pub State : Type 0
  pub handle_announce_peer : AnnounceRequest → Action State (List Peer)
  pub scrape : Bytes → Action State ScrapeFile
  pub get_statistic : Action State StatisticInfo
  pub ban_info_hash : Bytes → Action State (Unit {0})
  pub ban_peer : Bytes → Action State (Unit {0})
  pub clear_ban_info_hash : State → State
  pub clear_ban_peer : State → State
  pub get_peers : Bytes → Action State (List Peer)
  pub delete_info_hash : Bytes → Action State (Unit {0})
  pub ban_ip : Bytes → Action State (Unit {0})
  pub unban_ip : Bytes → Action State (Unit {0})
  pub clear_ban_ip : Action State (Unit {0})
  pub get_ip_filter_stats : State → Option IpFilterStats
