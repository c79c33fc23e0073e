-- ===== src/Local/Handlers.antt =====
-- biz/services/peer/local/local.go and clean.go: the methods of Manager that read or change its map
-- of torrents. `R` is that map's implementation.
pub mod Cases
use trunker.Base.{
  ℕ, ◌+◌, Bool, true, not, ◌&&◌, none, some, List, [], ◌∷◌, ◌++◌, map, if◌then◌else◌,
}
use trunker.Base.Bytes.{Bytes}
use trunker.Config.{Config}
use trunker.Request.{AnnounceRequest}
use trunker.Peer.{Peer, webtorrent, eq_type, get_key, is_peer_connectable}
use trunker.Peer.Event.{stopped, eq_event}
use trunker.Mapx.{SyncStringMap}
use trunker.Local.Root.{InfoHashRoot, new_info_hash_root, range}
use trunker.Local.Root
use trunker.Local.Manager.{
  Result, ok, err, invalid_address, Effect, send_peer_event, set_close_callback, Task, update_peer,
  peer_of, is_invalid_address, respond,
}

-- `next_serial` is not in the source: it numbers the roots as they are allocated.
pub record Manager (P : SyncStringMap Peer) (R : SyncStringMap (InfoHashRoot P)) : Type 0 where
  pub info_hash_map : R.Map
  pub next_serial : ℕ

-- A task acts on the root of this torrent with this serial.
pub record Pending : Type 0 where
  pub info_hash : Bytes
  pub serial : ℕ
  pub task : Task

abbrev pub pend : Bytes → ℕ → List Task → List Pending
pend info_hash serial = map (λ t. record { info_hash = info_hash; serial = serial; task = t })

-- The answer of a call, the manager after it, the tasks that it starts and its effects.
pub record Reply (P : SyncStringMap Peer) (R : SyncStringMap (InfoHashRoot P)) (A : Type 0)
    : Type 0 where
  pub manager : Manager P R
  pub result : A
  pub tasks : List Pending
  pub effects : List Effect

module _ {P : SyncStringMap Peer} where
  unfoldable pub callback_of : AnnounceRequest → Peer → InfoHashRoot P → List Effect
  callback_of req peer root =
      if eq_type peer.type webtorrent
      then elim req.conn [
        | none ↦ []
        | some c ↦ set_close_callback c req.info_hash root.serial req.peer_id ∷ []
      ]
      else []

  -- The first announce of a torrent stores the peer at once.
  unfoldable pub first_seen : Config → Peer → InfoHashRoot P → InfoHashRoot P
  first_seen cfg peer root =
      if is_peer_connectable cfg.use_announce_ip peer && not (eq_event peer.event stopped)
      then (Root.load_or_store (get_key peer) peer root).0
      else root

  -- `SkipMapToSlice` of a root.
  unfoldable pub peers_of : InfoHashRoot P → List Peer
  peers_of root = range (λ k value acc. (acc ++ (value ∷ []), true)) root []

module _ {P : SyncStringMap Peer} {R : SyncStringMap (InfoHashRoot P)} where
  -- A root that is in the map is changed in place.
  unfoldable pub put_root : Bytes → InfoHashRoot P → Manager P R → Manager P R
  put_root info_hash root m = record m { info_hash_map = R.store info_hash root m.info_hash_map }

  unfoldable pub find_or_add : Bytes → ℕ → Manager P R → Manager P R × InfoHashRoot P × Bool
  find_or_add info_hash now m =
      let (roots, root, loaded) =
        R.load_or_store_lazy info_hash (λ _. new_info_hash_root P info_hash now m.next_serial)
          m.info_hash_map in
      (record m { info_hash_map = roots; next_serial = m.next_serial + 1 }, root, loaded)

  unfoldable pub handle_announce_peer :
      Config → ℕ → AnnounceRequest → Manager P R → Reply P R (Result (List Peer))
  handle_announce_peer cfg now req m =
      let peer = peer_of now req in
      let (m', root, loaded) = find_or_add req.info_hash now m in
      let callback = callback_of req peer root in
      let (root', resp, tasks) = respond cfg now req peer root in
      if is_invalid_address peer
      then record { manager = m; result = err invalid_address; tasks = []; effects = [] }
      else if not loaded
      then record {
        manager = put_root req.info_hash (first_seen cfg peer root) m';
        result = ok [];
        tasks = [];
        effects = callback ++ (send_peer_event req.info_hash peer ∷ []);
      }
      else if eq_event peer.event stopped
      then record {
        manager = put_root req.info_hash (Root.load_and_delete (get_key peer) root).0 m';
        result = ok [];
        tasks = [];
        effects = callback;
      }
      else record {
        manager = put_root req.info_hash root' m';
        result = ok resp;
        tasks = pend req.info_hash root.serial (update_peer peer ∷ tasks);
        effects = callback;
      }

  unfoldable pub ban_info_hash : Bytes → Manager P R → Manager P R
  ban_info_hash info_hash m = record m { info_hash_map = (R.delete info_hash m.info_hash_map).0 }

  unfoldable pub delete_info_hash : Bytes → Manager P R → Manager P R
  delete_info_hash info_hash m = record m { info_hash_map = (R.delete info_hash m.info_hash_map).0 }

  unfoldable pub direct_store : Bytes → ℕ → Peer → Manager P R → Manager P R
  unfolding find_or_add put_root
  direct_store info_hash now peer m =
      let (m', root, loaded) = find_or_add info_hash now m in
      put_root info_hash (Root.store (get_key peer) peer root) m'

  unfoldable pub get_peers : Bytes → Manager P R → List Peer
  unfolding peers_of
  get_peers info_hash m = elim (R.load info_hash m.info_hash_map) [
    | none ↦ []
    | some root ↦ peers_of root
  ]
