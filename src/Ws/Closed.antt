-- ===== src/Ws/Closed.antt =====
-- A websocket client that leaves: its peer is not reachable any more.
use trunker.Base.{
  ℕ, ◌≡◌, refl, sym, ap, ◌∙◌, inl, inr, Bool, true, false, Option, none, some, List, [], ◌∷◌, arith,
  Bool-cases, Option-cases, get_or_else,
}
use mathlib.Core.Path.{subst}
use trunker.Base.Bytes.{Bytes, codes, eq_bytes_refl}
use trunker.Base.Equality.{nat_eq}
use trunker.Mapx.{SyncStringMap, IsMap}
use trunker.Mapx.Entries.{lookup-insert}
use trunker.Request.{AnnounceRequest}
use trunker.Peer.{Peer, get_key}
use trunker.Peer.Event.{stopped, eq_event}
use trunker.Local.Manager.{is_invalid_address}
use trunker.Tracker.{failed}
use trunker.Ws.{Root, Conn, Manager, peer_of, get_conn, set_conn, delete_peer, close}
use trunker.Ws.Handlers.{put_root, update, set_callback, handle_announce_peer, answer_to_peer}

-- The goroutines of an announce, one after the other.
module _ {P : SyncStringMap Peer} {R : SyncStringMap (Root P)} where
  unfoldable pub run_all : List Peer → Bytes → Manager P R → Manager P R
  run_all [] info_hash m = m
  run_all (peer ∷ peers) info_hash m = run_all peers info_hash (update info_hash peer m).0

module _ {P : SyncStringMap Peer} {R : SyncStringMap (Root P)} (lp : IsMap Peer P)
    (lr : IsMap (Root P) R) where
  -- The connection is open, its callback is that of this peer, and the torrent is known.
  pub record IsOpen (c : ℕ) (info_hash key : Bytes) (m : Manager P R) : Type 0 where
    pub root : Root P
    pub conn_eq : get_conn c m ≡ record { close_callback = some (info_hash, key); closed = false }
    pub root_eq : R.load info_hash m.info_hash_map ≡ some root

  get_conn-set_conn :
      (c : ℕ) (conn : Conn) (m : Manager P R) → get_conn c (set_conn c conn m) ≡ conn
  unfolding get_conn set_conn
  get_conn-set_conn c conn m = rw (lookup-insert c c conn m.conns) (ground arith)

  load-store : (k : Bytes) (r : Root P) (m : R.Map) → R.load k (R.store k r m) ≡ some r
  load-store k r m = lr.load-store k k r m ∙ rw (eq_bytes_refl k) refl

  not_found :
      (info_hash key : Bytes) (m : Manager P R) (sent : ℕ → Option Bytes) (root : Root P)
      → R.load info_hash m.info_hash_map ≡ some root
      → P.load key root.peer_map ≡ none
      → answer_to_peer sent info_hash key m ≡ (m, failed (codes "peer not found"))
  unfolding answer_to_peer
  not_found info_hash key m sent root e n = rw (e, n, answer_to_peer) refl

  closed_map :
      (c : ℕ) (info_hash key : Bytes) (m : Manager P R) (o : IsOpen c info_hash key m)
      → (close c m).info_hash_map
        ≡ R.store info_hash
            (record o.root { peer_map = (P.load_and_delete key o.root.peer_map).0 })
            m.info_hash_map
  unfolding close delete_peer set_conn
  closed_map c info_hash key m o = rw (o.conn_eq, o.root_eq, close, delete_peer) refl

  close_lem :
      (c : ℕ) (info_hash key : Bytes) (m : Manager P R) (sent : ℕ → Option Bytes)
      → IsOpen c info_hash key m
      → answer_to_peer sent info_hash key (close c m) ≡ (close c m, failed (codes "peer not found"))
  close_lem c info_hash key m sent o =
      let root' : Root P = record o.root { peer_map = (P.load_and_delete key o.root.peer_map).0 } in
      not_found info_hash key (close c m) sent root'
        (ap (R.load info_hash) (closed_map c info_hash key m o)
          ∙ load-store info_hash root' m.info_hash_map)
        (lp.load-load_and_delete key key o.root.peer_map ∙ rw (eq_bytes_refl key) refl)

  put_root-IsOpen :
      (c : ℕ) (info_hash key : Bytes) (root : Root P) (m : Manager P R)
      → get_conn c m ≡ record { close_callback = some (info_hash, key); closed = false }
      → IsOpen c info_hash key (put_root info_hash root m)
  unfolding put_root get_conn
  put_root-IsOpen c info_hash key root m e = record {
    root = root;
    conn_eq = e;
    root_eq = load-store info_hash root m.info_hash_map;
  }

  update-IsOpen :
      (c : ℕ) (info_hash key : Bytes) (peer : Peer) (m : Manager P R)
      → IsOpen c info_hash key m
      → IsOpen c info_hash key (update info_hash peer m).0
  unfolding update
  update-IsOpen c info_hash key peer m o =
      elim (Option-cases (P.load (get_key peer) o.root.peer_map)) [
        | inl n ↦ rw (o.root_eq, n, update) (put_root-IsOpen c info_hash key _ m o.conn_eq)
        | inr (known, n) ↦ rw (o.root_eq, n, update) (put_root-IsOpen c info_hash key _ m o.conn_eq)
      ]

  run_all-IsOpen :
      (peers : List Peer) (c : ℕ) (info_hash key : Bytes) (m : Manager P R)
      → IsOpen c info_hash key m
      → IsOpen c info_hash key (run_all peers info_hash m)
  unfolding run_all
  run_all-IsOpen [] c info_hash key m o = o
  run_all-IsOpen (peer ∷ peers) c info_hash key m o =
      run_all-IsOpen peers c info_hash key (update info_hash peer m).0
        (update-IsOpen c info_hash key peer m o)

  set_callback_conn :
      (c : ℕ) (info_hash key : Bytes) (m : Manager P R)
      → (get_conn c m).closed ≡ false
      → get_conn c (set_callback c info_hash key m)
        ≡ record { close_callback = some (info_hash, key); closed = false }
  unfolding set_callback
  set_callback_conn c info_hash key m h =
      get_conn-set_conn c (record (get_conn c m) { close_callback = some (info_hash, key) }) m
      ∙ rw h refl

  module _ (c now : ℕ) (req : AnnounceRequest) (m : Manager P R) (e : req.conn ≡ some c)
      (alive : (get_conn c m).closed ≡ false) (valid : is_invalid_address (peer_of now req) ≡ false)
      (runs : eq_event (peer_of now req).event stopped ≡ false) where
    abbrev found : R.Map × Root P × Bool
    found =
        R.load_or_store_lazy req.info_hash
          (λ _. record { info_hash = req.info_hash; peer_map = P.new }) m.info_hash_map

    abbrev with_callback : Manager P R
    with_callback = set_callback c req.info_hash req.peer_id (record m { info_hash_map = found.0 })

    known_manager : found.2 ≡ true → (handle_announce_peer now req m).manager ≡ with_callback
    unfolding handle_announce_peer
    known_manager l = rw (valid, e, l, runs, handle_announce_peer) refl

    first_manager :
        found.2 ≡ false
        → (handle_announce_peer now req m).manager
          ≡ put_root req.info_hash
              (record found.1 {
                peer_map =
                    (P.load_or_store
                      (get_key (peer_of now req))
                      (peer_of now req)
                      found.1.peer_map).0;
              })
              with_callback
    unfolding handle_announce_peer peer_of
    first_manager l = rw (valid, e, l, handle_announce_peer) (rw (e, peer_of) refl)

    callback_conn :
        get_conn c with_callback
        ≡ record { close_callback = some (req.info_hash, req.peer_id); closed = false }
    unfolding get_conn
    callback_conn =
        set_callback_conn c req.info_hash req.peer_id (record m { info_hash_map = found.0 }) alive

    announced-IsOpen : IsOpen c req.info_hash req.peer_id (handle_announce_peer now req m).manager
    unfolding set_callback set_conn
    announced-IsOpen = elim (Bool-cases found.2) [
      | inl l ↦ subst (IsOpen c req.info_hash req.peer_id) (sym (known_manager l)) (record {
        root =
            get_or_else (R.load req.info_hash m.info_hash_map)
              (record { info_hash = req.info_hash; peer_map = P.new });
        conn_eq = callback_conn;
        root_eq =
            lr.load-load_or_store_lazy req.info_hash req.info_hash _ m.info_hash_map
            ∙ rw (eq_bytes_refl req.info_hash) refl;
      })
      | inr l ↦
          subst (IsOpen c req.info_hash req.peer_id) (sym (first_manager l))
            (put_root-IsOpen c req.info_hash req.peer_id _ with_callback callback_conn)
    ]

    -- When a websocket client has announced itself to a torrent over an open connection, the
    -- goroutines of the announce have run, and the connection is closed, an answer to it fails with
    -- "peer not found" and changes nothing; when the addresses of the announce are valid, its event
    -- is not stopped, and the maps keep their contracts.
    pub answer_to_peer-close :
        (sent : ℕ → Option Bytes)
        → (let r = handle_announce_peer now req m in
            let left = close c (run_all r.tasks req.info_hash r.manager) in
            answer_to_peer sent req.info_hash req.peer_id left
            ≡ (left, failed (codes "peer not found")))
    answer_to_peer-close sent =
        let r = handle_announce_peer now req m in
        close_lem c req.info_hash req.peer_id (run_all r.tasks req.info_hash r.manager) sent
          (run_all-IsOpen r.tasks c req.info_hash req.peer_id r.manager announced-IsOpen)
