-- ===== src/Ws.antt =====
-- biz/services/peer/websocket/local.go and the connections of biz/model/ws.go: the peers that
-- websocket clients reach each other through. Roots are never removed, so a root is known by its
-- info hash. Goroutines are returned as tasks, as in `Local.Manager`.
pub mod Handlers
pub mod Picked
pub mod Closed
mod Tests
use trunker.Base.{
  ℕ, zero, suc, ◌+◌, ◌-◌, ◌*◌, ◌/◌, ◌%◌, ◌^◌, ◌≤◌, ◌<◌, min, ◌≡◌, refl, sym, ap, ap₂, ◌∙◌, ◌≢◌, ◌↔◌,
  ◌⊎◌, inl, inr, Bool, true, false, not, ◌&&◌, ◌||◌, Option, none, some, List, [], ◌∷◌, ◌++◌, map,
  arith, ltb, leb, ◌==◌, if◌then◌else◌, ltb→lt, lt→ltb, leb→le, ==_iff, tests, Bool-cases,
  Option-cases, is_some, get_or_else, or_else, length, take, drop, replicate, All, filter, count,
  length-append, All-append, take-append, drop-append, filter_skip, filter_add, length-take,
  length-drop, count-append,
}
use trunker.Base.Bytes.{Bytes, codes, eq_bytes}
use trunker.Base.Int.{is_nonneg, wrap, le_ℕ}
use trunker.Base.Equality.{nat_eq}
use trunker.Mapx.{SyncStringMap}
use trunker.Mapx.Entries.{lookup, insert}
use trunker.Net.Parse.{parse_ip}
use trunker.Request.{AnnounceRequest, ScrapeFile}
use trunker.Peer.{Peer, webtorrent, eq_type, get_key}
use trunker.Peer.Event.{stopped, completed, eq_event, parse_peer_event}
use trunker.Local.Root.{visit}
use trunker.Local.Manager.{
  Effect, send_peer_event, cache_set, refresh, is_reported, is_invalid_address,
}
use trunker.Tracker.{Outcome, done, failed}
use trunker.Rpc.Client.{nil_dereference}

pub record Root (P : SyncStringMap Peer) : Type 0 where
  pub info_hash : Bytes
  pub peer_map : P.Map

-- model.Conn: the root and the key that its CloseCallback deletes, and its flag.
pub record Conn : Type 0 where
  pub close_callback : Option (Bytes × Bytes)
  pub closed : Bool

abbrev pub new_conn : Conn
new_conn = record { close_callback = none; closed = false }

pub record Manager (P : SyncStringMap Peer) (R : SyncStringMap (Root P)) : Type 0 where
  pub info_hash_map : R.Map
  pub conns : List (ℕ × Conn)

-- What HandleAnnouncePeer answers, with the peers that its goroutine updates.
pub record Reply (P : SyncStringMap Peer) (R : SyncStringMap (Root P)) : Type 0 where
  pub manager : Manager P R
  pub result : Outcome (List Peer)
  pub tasks : List Peer
  pub effects : List Effect

-- The peer of an announce; its left is made from the uploaded bytes.
unfoldable pub peer_of : ℕ → AnnounceRequest → Peer
peer_of now req = record {
  ip = parse_ip req.ip;
  ipv4 = parse_ip req.ipv4;
  ipv6 = parse_ip req.ipv6;
  client_ip = req.client_ip;
  last_seen = now;
  offers = req.offers;
  id = req.peer_id;
  user_agent = req.user_agent;
  port = req.port;
  left = if is_nonneg req.left then wrap 64 req.uploaded else 2 ^ 64 - 1;
  uploaded = if is_nonneg req.uploaded then wrap 64 req.uploaded else 0;
  downloaded = if is_nonneg req.downloaded then wrap 64 req.downloaded else 0;
  conn = req.conn;
  type = req.type;
  event = parse_peer_event req.event;
  source = req.source;
}

-- The callback of `root.peerMap.Range` in HandleAnnouncePeer, on the variable resp.
unfoldable pub pick : AnnounceRequest → Peer → Bytes → Peer → List Peer → List Peer × Bool
pick req peer k value resp =
    if not (eq_type value.type peer.type)
    then (resp, true)
    else if eq_type value.type webtorrent && not (is_some value.conn)
    then (resp, true)
    else if eq_event value.event stopped
    then (resp, true)
    else if le_ℕ req.num_want (length resp)
    then (resp, false)
    else if eq_bytes value.id peer.id
    then (resp, true)
    else (resp ++ (value ∷ []), true)

abbrev pub no_peers : ScrapeFile
no_peers = record { seeder = 0; complete = 0; incomplete = 0; downloaded = 0 }

-- The counters of Scrape.
unfoldable pub tally : List (Bytes × Peer) → ScrapeFile
tally [] = no_peers
tally ((k, value) ∷ rest) =
    let t = tally rest in
    if value.left == 0
    then record t {
      downloaded = t.downloaded + 1;
      complete = t.complete + 1;
      seeder = if eq_event value.event stopped then t.seeder else t.seeder + 1;
    }
    else if eq_event value.event completed
    then record t { complete = t.complete + 1 }
    else record t { incomplete = t.incomplete + 1 }

-- `strings.Contains`.
unfoldable pub starts_with : Bytes → Bytes → Bool
starts_with s [] = true
starts_with [] (c ∷ cs) = false
starts_with (b ∷ bs) (c ∷ cs) = b == c && starts_with bs cs

unfoldable pub contains : Bytes → Bytes → Bool
unfolding starts_with
contains [] sub = starts_with [] sub
contains (b ∷ bs) sub = starts_with (b ∷ bs) sub || contains bs sub

module _ {P : SyncStringMap Peer} {R : SyncStringMap (Root P)} where
  unfoldable pub get_conn : ℕ → Manager P R → Conn
  unfolding lookup
  get_conn c m = get_or_else (lookup c m.conns) new_conn

  unfoldable pub set_conn : ℕ → Conn → Manager P R → Manager P R
  unfolding insert
  set_conn c conn m = record m { conns = insert c conn m.conns }

  -- `root.peerMap.LoadAndDelete`; a root that is not there has no peers.
  unfoldable pub delete_peer : Bytes → Bytes → Manager P R → Manager P R
  delete_peer info_hash key m = elim (R.load info_hash m.info_hash_map) [
    | none ↦ m
    | some root ↦ record m {
      info_hash_map =
          R.store info_hash (record root { peer_map = (P.load_and_delete key root.peer_map).0 })
            m.info_hash_map;
    }
  ]

  -- `Conn.Close`: the callback runs at the first call only.
  unfoldable pub close : ℕ → Manager P R → Manager P R
  unfolding get_conn set_conn delete_peer
  close c m =
      let conn = get_conn c m in
      if conn.closed
      then m
      else set_conn c (record conn { closed = true })
          (elim conn.close_callback [
            | none ↦ m
            | some (info_hash, key) ↦ delete_peer info_hash key m
          ])

  -- `Conn.WriteJSON`; `sent` is the error of the library's WriteJSON.
  unfoldable pub write_json : Option Bytes → ℕ → Manager P R → Option Bytes
  unfolding get_conn contains
  write_json sent c m = if (get_conn c m).closed then none else elim sent [
    | none ↦ none
    | some e ↦
        if contains e (codes "connection has been closed") || contains e (codes "broken pipe")
        then none
        else some e
  ]
