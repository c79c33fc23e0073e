-- ===== src/Local/Manager.antt =====
-- biz/services/peer/local/local.go: Manager, the torrents of one shard. Goroutines that a handler
-- starts are returned as tasks, which run later and in any order (`Local.System`); the events for the
-- message queue and the callbacks of connections are returned as effects. The time `now` is one
-- value for each call.
pub mod Update
pub mod Rotate
use trunker.Base.{
  ℕ, ◌+◌, ◌-◌, ◌*◌, ◌/◌, ◌%◌, ◌^◌, Bool, true, false, not, ◌&&◌, ◌||◌, none, some, List, [], ◌∷◌,
  ◌++◌, ltb, ◌==◌, if◌then◌else◌, is_some, length,
}
use trunker.Base.Bytes.{Bytes, eq_bytes}
use trunker.Base.Int.{is_nonneg, wrap, le_ℕ}
use trunker.Config.{Config, second}
use trunker.Net.{to4}
use trunker.Net.Parse.{parse_ip}
use trunker.Request.{AnnounceRequest, ScrapeFile}
use trunker.Peer.{Peer, webtorrent, eq_type, get_key, is_peer_connectable}
use trunker.Peer.Event.{stopped, eq_event, parse_peer_event}
use trunker.Mapx.{SyncStringMap}
use trunker.Local.Root.{InfoHashRoot, new_info_hash_root, get_map, set_map, range}
use trunker.Local.Root

pub data Error : Type 0 where
  invalid_address : Error

pub data Result (A : Type 0) : Type 0 where
  ok : A → Result A
  err : Error → Result A

-- The peer that an announce describes, and the checks of its two addresses.
unfoldable pub peer_of : ℕ → AnnounceRequest → Peer
peer_of now req = record {
  ip = parse_ip req.ip;
  ipv4 = parse_ip req.ipv4;
  ipv6 = parse_ip req.ipv6;
  client_ip = req.client_ip;
  last_seen = now;
  offers = req.offers;
  id = req.peer_id;
  user_agent = req.user_agent;
  port = req.port;
  left = if is_nonneg req.left then wrap 64 req.left else 2 ^ 64 - 1;
  uploaded = if is_nonneg req.uploaded then wrap 64 req.uploaded else 0;
  downloaded = if is_nonneg req.downloaded then wrap 64 req.downloaded else 0;
  conn = req.conn;
  type = req.type;
  event = parse_peer_event req.event;
  source = req.source;
}

unfoldable pub is_invalid_address : Peer → Bool
is_invalid_address p =
    (is_some p.ipv4 && not (is_some (to4 p.ipv4))) || (is_some p.ipv6 && is_some (to4 p.ipv6))

-- `now.Add(-TTL).After(value.LastSeen)`.
unfoldable pub is_expired : Config → ℕ → Peer → Bool
is_expired cfg now value = ltb (value.last_seen + cfg.ttl * second) now

-- The callback of `root.Range` in HandleAnnouncePeer, on the variables expiredPeer and resp.
unfoldable pub pick :
    Config
    → ℕ
    → AnnounceRequest
    → Peer
    → Bytes
    → Peer
    → List Bytes × List Peer
    → (List Bytes × List Peer) × Bool
unfolding is_expired
pick cfg now req peer k value (expired, resp) =
    if is_expired cfg now value
    then ((expired ++ (k ∷ []), resp), true)
    else if not (eq_type value.type peer.type)
    then ((expired, resp), true)
    else if eq_type value.type webtorrent && not (is_some value.conn)
    then ((expired, resp), true)
    else if eq_event value.event stopped
    then ((expired, resp), true)
    else if le_ℕ req.num_want (length resp)
    then ((expired, resp), false)
    else if eq_bytes value.id peer.id
    then ((expired, resp), true)
    else ((expired, resp ++ (value ∷ [])), true)

-- What HandleAnnouncePeer writes into the record of a known peer.
unfoldable pub refresh : Peer → Peer → Peer
refresh known_peer peer = record known_peer {
  uploaded = peer.uploaded;
  downloaded = peer.downloaded;
  last_seen = peer.last_seen;
  event = peer.event;
  left = peer.left;
}

-- The change of a known peer that is reported: it has just completed, or its event is new.
unfoldable pub is_reported : Peer → Peer → Bool
is_reported known_peer peer =
    (not (known_peer.left == 0) && peer.left == 0) || not (eq_event known_peer.event peer.event)

-- `producer.SendPeerEvent`, and the assignment of a connection's CloseCallback, which deletes the
-- peer with this id from the root with this serial.
pub data Effect : Type 0 where
  send_peer_event : Bytes → Peer → Effect
  set_close_callback : ℕ → Bytes → ℕ → Bytes → Effect
  close_conn : ℕ → Effect
  cache_set : Bytes → ScrapeFile → Effect

-- A goroutine acts on the root whose address it was started with.
pub data Task : Type 0 where
  update_peer : Peer → Task
  delete_keys : List Bytes → Task
  close_callback : Bytes → Task

module _ {P : SyncStringMap Peer} where
  -- The goroutine that stores the announced peer.
  unfoldable pub update : Config → Peer → InfoHashRoot P → InfoHashRoot P × List Effect
  unfolding refresh is_reported
  update cfg peer r =
      let (gone, found) = Root.load_and_delete (get_key peer) r in
      elim found [
        | some known_peer ↦
            let known_peer' = refresh known_peer peer in
            (
              Root.store (get_key known_peer') known_peer' gone,
              if is_reported known_peer peer then send_peer_event r.info_hash peer ∷ [] else [],
            )
        | none ↦
            if is_peer_connectable cfg.use_announce_ip peer
            then (
              (Root.load_or_store (get_key peer) peer gone).0,
              send_peer_event r.info_hash peer ∷ [],
            )
            else (gone, [])
      ]

  unfoldable pub delete_all : List Bytes → InfoHashRoot P → InfoHashRoot P
  delete_all [] r = r
  delete_all (k ∷ ks) r = delete_all ks (Root.delete k r).0

  unfoldable pub run_task : Config → Task → InfoHashRoot P → InfoHashRoot P × List Effect
  unfolding update delete_all
  run_task cfg (update_peer peer) r = update cfg peer r
  run_task cfg (delete_keys keys) r = (delete_all keys r, [])
  run_task cfg (close_callback key) r = ((Root.load_and_delete key r).0, [])

  -- The write head moves on when its map is more than half full, and the oldest map is emptied. No
  -- other goroutine swaps in between.
  unfoldable pub rotate : Config → InfoHashRoot P → InfoHashRoot P
  unfolding get_map set_map
  rotate cfg r =
      let current = r.current_active in
      if ltb (cfg.max_peers_per_torrent / 2) (P.len (get_map current r))
      then set_map ((current + 2) % 3) P.new (record r { current_active = (current + 1) % 3 })
      else r

  -- The part of HandleAnnouncePeer from `expireTime` on: the answer, the root and the tasks.
  unfoldable pub respond :
      Config → ℕ → AnnounceRequest → Peer → InfoHashRoot P → InfoHashRoot P × List Peer × List Task
  unfolding pick rotate
  respond cfg now req peer r =
      let picked : List Bytes × List Peer = range (pick cfg now req peer) r ([], []) in
      (rotate cfg r, picked.1, if ltb 0 (length picked.0) then delete_keys picked.0 ∷ [] else [])
