-- ===== src/Ws/Handlers.antt =====
-- The methods of the manager of biz/services/peer/websocket/local.go.
use trunker.Base.{
  ℕ, Bool, not, ◌&&◌, Option, none, some, List, [], ◌∷◌, ◌++◌, if◌then◌else◌, is_some, get_or_else,
}
use trunker.Base.Bytes.{Bytes, codes}
use trunker.Base.Equality.{nat_eq}
use trunker.Mapx.{SyncStringMap}
use trunker.Request.{AnnounceRequest, ScrapeFile}
use trunker.Peer.{Peer, get_key}
use trunker.Peer.Event.{stopped, eq_event}
use trunker.Local.Root.{visit}
use trunker.Local.Manager.{
  Effect, send_peer_event, cache_set, refresh, is_reported, is_invalid_address,
}
use trunker.Tracker.{Outcome, done, failed}
use trunker.Rpc.Client.{nil_dereference}
use trunker.Ws.{
  Root, Manager, Reply, peer_of, pick, no_peers, tally, contains, get_conn, set_conn, delete_peer,
  close, write_json,
}

module _ {P : SyncStringMap Peer} {R : SyncStringMap (Root P)} where
  unfoldable pub put_root : Bytes → Root P → Manager P R → Manager P R
  put_root info_hash root m = record m { info_hash_map = R.store info_hash root m.info_hash_map }

  -- The goroutine that updates or stores the announced peer. No other one writes in between.
  unfoldable pub update : Bytes → Peer → Manager P R → Manager P R × List Effect
  unfolding put_root refresh is_reported
  update info_hash peer m = elim (R.load info_hash m.info_hash_map) [
    | none ↦ (m, [])
    | some root ↦ elim (P.load (get_key peer) root.peer_map) [
      | some known_peer ↦ (
        put_root info_hash
            (record root {
              peer_map = P.store (get_key peer) (refresh known_peer peer) root.peer_map;
            })
            m,
        if is_reported known_peer peer then send_peer_event info_hash peer ∷ [] else [],
      )
      | none ↦ (
        put_root info_hash
            (record root { peer_map = (P.load_or_store (get_key peer) peer root.peer_map).0 }) m,
        [],
      )
    ]
  ]

  -- `peer.Conn.CloseCallback = func() ...`.
  unfoldable pub set_callback : ℕ → Bytes → Bytes → Manager P R → Manager P R
  unfolding get_conn set_conn
  set_callback c info_hash key m =
      set_conn c (record (get_conn c m) { close_callback = some (info_hash, key) }) m

  -- A request without a connection is a panic.
  unfoldable pub handle_announce_peer : ℕ → AnnounceRequest → Manager P R → Reply P R
  unfolding peer_of is_invalid_address set_callback put_root close delete_peer visit pick
  handle_announce_peer now req m =
      let peer = peer_of now req in
      let (roots, root, loaded) =
        R.load_or_store_lazy req.info_hash
          (λ _. record { info_hash = req.info_hash; peer_map = P.new }) m.info_hash_map in
      let m1 : Manager P R = record m { info_hash_map = roots } in
      if is_invalid_address peer
      then record {
        manager = m;
        result = failed (codes "invalid address");
        tasks = [];
        effects = [];
      }
      else elim req.conn [
        | none ↦ record { manager = m1; result = failed nil_dereference; tasks = []; effects = [] }
        | some c ↦
            let m2 = set_callback c req.info_hash req.peer_id m1 in
            if not loaded
            then record {
              manager =
                  put_root req.info_hash
                    (record root {
                      peer_map = (P.load_or_store (get_key peer) peer root.peer_map).0;
                    })
                    m2;
              result = done [];
              tasks = [];
              effects = send_peer_event req.info_hash peer ∷ [];
            }
            else if eq_event peer.event stopped
            then record {
              manager = delete_peer req.info_hash (get_key peer) (close c m2);
              result = done [];
              tasks = [];
              effects = [];
            }
            else record {
              manager = m2;
              result = done (visit (pick req peer) (P.entries root.peer_map) []);
              tasks = peer ∷ [];
              effects = [];
            }
      ]

  -- `cached` is what the cache has, when it is enabled.
  unfoldable pub scrape : Bool → Option ScrapeFile → Bytes → Manager P R → ScrapeFile × List Effect
  unfolding tally
  scrape cache_enable cached info_hash m =
      if cache_enable && is_some cached
      then (get_or_else cached no_peers, [])
      else elim (R.load info_hash m.info_hash_map) [
        | none ↦ (no_peers, [])
        | some root ↦
            let ret = tally (P.entries root.peer_map) in
            (ret, if cache_enable then cache_set (codes "scrape_ws_" ++ info_hash) ret ∷ [] else [])
      ]

  -- The connection that the answer was written to. `sent` is as in `write_json`.
  unfoldable pub answer_to_peer :
      (ℕ → Option Bytes) → Bytes → Bytes → Manager P R → Manager P R × Outcome ℕ
  unfolding write_json put_root contains
  answer_to_peer sent info_hash peer_id m = elim (R.load info_hash m.info_hash_map) [
    | none ↦ (m, failed (codes "info hash not found"))
    | some root ↦ elim (P.load peer_id root.peer_map) [
      | none ↦ (m, failed (codes "peer not found"))
      | some peer ↦ elim peer.conn [
        | none ↦ (m, failed (codes "peer not connected"))
        | some c ↦ elim (write_json (sent c) c m) [
          | none ↦ (m, done c)
          | some e ↦
              if contains e (codes "close")
              then (
                put_root info_hash
                    (record root {
                      peer_map = P.store peer_id (record peer { conn = none }) root.peer_map;
                    })
                    m,
                failed (codes "remote peer offline"),
              )
              else (m, failed e)
        ]
      ]
    ]
  ]
