-- ===== src/Local/Capacity.antt =====
-- How many peers a torrent keeps (biz/services/peer/local/local.go). `rotate` looks at the map that
-- is written to when a handler answers, and the goroutine that adds the peer runs later, so the bound
-- depends on how many such goroutines are waiting.
use trunker.Base.{
  ℕ, suc, ◌+◌, ◌*◌, ◌/◌, ◌%◌, ◌≤◌, ◌<◌, ◌≡◌, inl, inr, not, ◌&&◌, List, [], ◌∷◌, arith, Bool-cases,
  Option-cases,
}
use trunker.Base.Bytes.{Bytes}
use trunker.Config.{Config}
use trunker.Request.{AnnounceRequest}
use trunker.Mapx.{SyncStringMap, IsMap}
use trunker.Peer.{Peer, get_key, is_peer_connectable}
use trunker.Local.Root.{InfoHashRoot, new_info_hash_root, get_map, set_map, len}
use trunker.Local.Root
use trunker.Local.Manager.{refresh, update, delete_all, rotate, respond}
use trunker.Peer.Event.{stopped, eq_event}
use trunker.Local.Handlers.{first_seen}
use trunker.Local.Clean.{delete_cleaned}

-- A root, with n goroutines waiting to store a peer in it; `bound` is the most that wait at a time.
module _ {P : SyncStringMap Peer} (cfg : Config) (bound : ℕ) where
  pub data Round : InfoHashRoot P → ℕ → InfoHashRoot P → ℕ → Type 0 where
    answer :
        (now : ℕ) (req : AnnounceRequest) (peer : Peer) (r : InfoHashRoot P) (n : ℕ)
        → suc n ≤ bound
        → Round r n (respond cfg now req peer r).0 (suc n)
    add : (peer : Peer) (r : InfoHashRoot P) (n : ℕ) → Round r (suc n) (update cfg peer r).0 n
    expire : (keys : List Bytes) (r : InfoHashRoot P) (n : ℕ) → Round r n (delete_all keys r) n
    leave : (key : Bytes) (r : InfoHashRoot P) (n : ℕ) → Round r n (Root.load_and_delete key r).0 n
    clean : (keys : List Bytes) (r : InfoHashRoot P) (n : ℕ) → Round r n (delete_cleaned keys r) n

  pub data Rounds (r : InfoHashRoot P) : InfoHashRoot P → ℕ → Type 0 where
    none_yet : Rounds r r 0
    later : {s t : InfoHashRoot P} {m n : ℕ} → Rounds r s m → Round s m t n → Rounds r t n

-- The map written to has room for the goroutines that wait, the one before it is no larger, and the
-- next one is empty.
record IsWithin {P : SyncStringMap Peer} (cap n : ℕ) (r : InfoHashRoot P) : Type 0 where
  active_lt : r.current_active < 3
  active : P.len (get_map r.current_active r) + n ≤ cap
  old : P.len (get_map ((r.current_active + 2) % 3) r) ≤ cap
  spare : P.len (get_map ((r.current_active + 1) % 3) r) ≡ 0

module _ {P : SyncStringMap Peer} (law : IsMap Peer P) where
  len-load_and_delete-le : (k : Bytes) (m : P.Map) → P.len (P.load_and_delete k m).0 ≤ P.len m
  len-load_and_delete-le k m = ground (arith, law.len-load_and_delete k m)

  len-delete-le : (k : Bytes) (m : P.Map) → P.len (P.delete k m).0 ≤ P.len m
  len-delete-le k m = ground (arith, law.len-delete k m)

  module _ (cap n : ℕ) where
    load_and_delete-IsWithin :
        (k : Bytes) (r : InfoHashRoot P)
        → IsWithin cap n r
        → IsWithin cap n (Root.load_and_delete k r).0
    unfolding Root.load_and_delete get_map
    load_and_delete-IsWithin k r w = ground (
      arith,
      len-load_and_delete-le k r.peer_map0,
      len-load_and_delete-le k r.peer_map1,
      len-load_and_delete-le k r.peer_map2,
    )

    delete-IsWithin :
        (k : Bytes) (r : InfoHashRoot P) → IsWithin cap n r → IsWithin cap n (Root.delete k r).0
    unfolding Root.delete get_map
    delete-IsWithin k r w = ground (
      arith,
      len-delete-le k r.peer_map0,
      len-delete-le k r.peer_map1,
      len-delete-le k r.peer_map2,
    )

    store-IsWithin :
        (k : Bytes) (p : Peer) (r : InfoHashRoot P)
        → IsWithin cap (suc n) r
        → IsWithin cap n (Root.store k p r)
    unfolding Root.store
    store-IsWithin k p r w = ground (
      arith,
      law.len-store k p r.peer_map0,
      law.len-store k p r.peer_map1,
      law.len-store k p r.peer_map2,
    )

    load_or_store-IsWithin :
        (k : Bytes) (p : Peer) (r : InfoHashRoot P)
        → IsWithin cap (suc n) r
        → IsWithin cap n (Root.load_or_store k p r).0
    unfolding Root.load_or_store
    load_or_store-IsWithin k p r w = ground (
      arith,
      law.len-load_or_store k p r.peer_map0,
      law.len-load_or_store k p r.peer_map1,
      law.len-load_or_store k p r.peer_map2,
    )

    rotate-IsWithin :
        (cfg : Config) (r : InfoHashRoot P)
        → cfg.max_peers_per_torrent / 2 + suc n ≤ cap
        → IsWithin cap n r
        → IsWithin cap (suc n) (rotate cfg r)
    unfolding rotate
    rotate-IsWithin cfg r h w = ground (arith, law.len-new)

  module _ (cap n : ℕ) where
    wait_less-IsWithin : (r : InfoHashRoot P) → IsWithin cap (suc n) r → IsWithin cap n r
    wait_less-IsWithin r w = record {
      active_lt = w.active_lt;
      active = omega arith;
      old = w.old;
      spare = w.spare;
    }

    update-IsWithin :
        (cfg : Config) (p : Peer) (r : InfoHashRoot P)
        → IsWithin cap (suc n) r
        → IsWithin cap n (update cfg p r).0
    unfolding update
    update-IsWithin cfg p r w =
        let gone = load_and_delete-IsWithin cap (suc n) (get_key p) r w in
        elim (Option-cases (Root.load_and_delete (get_key p) r).1) [
          | inr (known, e) ↦ rw (e, update) (store-IsWithin cap n _ (refresh known p) _ gone)
          | inl e ↦
              rw (e, update)
                (elim (Bool-cases (is_peer_connectable cfg.use_announce_ip p)) [
                  | inl reached ↦ rw reached (load_or_store-IsWithin cap n _ p _ gone)
                  | inr unreached ↦ rw unreached (wait_less-IsWithin _ gone)
                ])
        ]

    delete_all-IsWithin :
        (ks : List Bytes) (r : InfoHashRoot P) → IsWithin cap n r → IsWithin cap n (delete_all ks r)
    unfolding delete_all
    delete_all-IsWithin [] r w = w
    delete_all-IsWithin (k ∷ ks) r w = delete_all-IsWithin ks _ (delete-IsWithin cap n k r w)

    delete_cleaned-IsWithin :
        (ks : List Bytes) (r : InfoHashRoot P)
        → IsWithin cap n r
        → IsWithin cap n (delete_cleaned ks r)
    unfolding delete_cleaned
    delete_cleaned-IsWithin [] r w = w
    delete_cleaned-IsWithin (k ∷ ks) r w =
        delete_cleaned-IsWithin ks _ (load_and_delete-IsWithin cap n k r w)

  module _ (cfg : Config) (bound : ℕ) where
    abbrev capacity : ℕ
    capacity = cfg.max_peers_per_torrent / 2 + bound

    Round-IsWithin :
        {r s : InfoHashRoot P} {m n : ℕ}
        → Round cfg bound r m s n
        → IsWithin capacity m r
        → IsWithin capacity n s
    Round-IsWithin (answer now req peer r n h) w =
        unfold respond in rotate-IsWithin capacity n cfg r (omega arith) w
    Round-IsWithin (add peer r n) w = update-IsWithin capacity n cfg peer r w
    Round-IsWithin (expire keys r n) w = delete_all-IsWithin capacity n keys r w
    Round-IsWithin (leave key r n) w = load_and_delete-IsWithin capacity n key r w
    Round-IsWithin (clean keys r n) w = delete_cleaned-IsWithin capacity n keys r w

    Rounds-IsWithin :
        {r s : InfoHashRoot P} {n : ℕ}
        → IsWithin capacity 0 r
        → Rounds cfg bound r s n
        → IsWithin capacity n s
    Rounds-IsWithin w none_yet = w
    Rounds-IsWithin w (later rs r) = Round-IsWithin r (Rounds-IsWithin w rs)

    new-IsWithin :
        (h : Bytes) (now serial : ℕ) → IsWithin capacity 0 (new_info_hash_root P h now serial)
    unfolding new_info_hash_root get_map
    new-IsWithin h now serial = ground (arith, law.len-new)

    new-IsWithin_more :
        (h : Bytes) (now serial : ℕ)
        → 1 ≤ bound
        → IsWithin capacity 1 (new_info_hash_root P h now serial)
    unfolding new_info_hash_root get_map
    new-IsWithin_more h now serial b = ground (arith, law.len-new)

    len-le : (cap n : ℕ) (r : InfoHashRoot P) → IsWithin cap n r → len r + n ≤ 2 * cap
    unfolding len get_map
    len-le cap n r w = ground (arith, w.active_lt)

    first_seen-IsWithin :
        (p : Peer) (h : Bytes) (now serial : ℕ)
        → 1 ≤ bound
        → IsWithin capacity 0 (first_seen cfg p (new_info_hash_root P h now serial))
    unfolding first_seen
    first_seen-IsWithin p h now serial b =
        elim (Bool-cases
          (is_peer_connectable cfg.use_announce_ip p && not (eq_event p.event stopped))) [
            | inl stores ↦
                rw stores
                  (load_or_store-IsWithin capacity 0 _ p _ (new-IsWithin_more h now serial b))
            | inr skips ↦ rw skips (new-IsWithin h now serial)
          ]

    -- While at most `bound` goroutines wait to add a peer, a torrent keeps at most as many peers as
    -- configured and twice `bound` more, whatever announces, departures and cleanings follow the first
    -- announce of it.
    pub Rounds-len-le :
        (first : Peer) (h : Bytes) (now serial n : ℕ) (r : InfoHashRoot P)
        → 1 ≤ bound
        → Rounds cfg bound (first_seen cfg first (new_info_hash_root P h now serial)) r n
        → len r ≤ cfg.max_peers_per_torrent + 2 * bound
    Rounds-len-le first h now serial n r b rs =
        omega (
          arith,
          len-le capacity n r (Rounds-IsWithin (first_seen-IsWithin first h now serial b) rs),
        )
