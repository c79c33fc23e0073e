-- ===== src/Snapshot/Found.antt =====
-- Which peer a tracker has after LoadFromPersist: what `load_store` does, by torrent and peer.
use trunker.Base.{
  ℕ, zero, suc, ◌+◌, ◌*◌, ◌<◌, ◌≡◌, refl, sym, ap, ◌∙◌, inl, inr, Bool, true, false, ◌&&◌, Option,
  none, some, List, [], ◌∷◌, arith, ltb, leb, ◌==◌, if◌then◌else◌, ==_iff, Bool-cases, Option-cases,
  get_or_else, length,
}
use trunker.Base.Bytes.{Bytes, eq_bytes, eq_bytes_iff}
use native.Mathlib.Nat.{mod-lt}
use trunker.Net.{IpAddr}
use trunker.Config.{Config, second}
use trunker.Mapx.{SyncStringMap, IsMap}
use trunker.Peer.{Peer, get_key}
use trunker.Ban.IpFilter.{IpFilter}
use trunker.Ban.Item.{Bloom}
use trunker.Rpc.{received_peer, peer_idl_to_common}
use trunker.Local.Root.{InfoHashRoot, get_map, set_map, new_info_hash_root}
use trunker.Local.Root
use trunker.Local.Handlers.{Manager, direct_store, find_or_add, put_root}
use trunker.Mux.{MuxLocalManager, get_at, set_at, pick_worker, set_worker}
use trunker.Mux.Announce.{get_at-set_at_other}
use trunker.Snapshot.{Store, Codec, load_store}
use trunker.Snapshot.Loaded.{received}
use trunker.Snapshot.RoundTrip.{load_all}

-- Whether the time of a Store has not run out.
abbrev pub is_alive : Config → ℕ → Store → Bool
is_alive cfg now s = leb now (s.peer.last_seen * second + cfg.ttl * second)

-- The peer of a torrent under a key, after the stores: the last one that is about them and alive, or
-- the one from before.
unfoldable pub latest : IpAddr → Config → ℕ → Bytes → Bytes → List Store → Option Peer → Option Peer
latest empty cfg now h k [] before = before
latest empty cfg now h k (s ∷ ss) before = latest empty cfg now h k ss (
    if eq_bytes s.info_hash h && (eq_bytes s.peer.id k && is_alive cfg now s)
    then some (peer_idl_to_common (received_peer empty s.peer))
    else before)

-- The peer after one of them.
abbrev after_store : Config → ℕ → Bytes → Bytes → Store → Option Peer → Option Peer
after_store cfg now h k s before =
    if eq_bytes s.info_hash h && (eq_bytes s.peer.id k && is_alive cfg now s)
    then some (peer_idl_to_common s.peer)
    else before

module _ {P : SyncStringMap Peer} where
  -- The peer under a key in the map that the root writes to.
  abbrev pub active : Bytes → InfoHashRoot P → Option Peer
  active k root = P.load k (get_map root.current_active root)

  get_map-set_map : (n : ℕ) (x : P.Map) (r : InfoHashRoot P) → get_map n (set_map n x r) ≡ x
  unfolding get_map set_map
  get_map-set_map n x r = ground arith

  active_after :
      (n : ℕ) (x : P.Map) (r : InfoHashRoot P) → (set_map n x r).current_active ≡ r.current_active
  unfolding set_map
  active_after n x r = ground arith

  active-store :
      (law : IsMap Peer P) (j k : Bytes) (p : Peer) (r : InfoHashRoot P)
      → active j (Root.store k p r) ≡ (if eq_bytes k j then some p else active j r)
  unfolding Root.store
  active-store law j k p r =
      let n = r.current_active in
      let m = P.store k p (get_map n r) in
      ap (λ c. P.load j (get_map c (set_map n m r))) (active_after n m r)
      ∙ (ap (P.load j) (get_map-set_map n m r) ∙ law.load-store j k p (get_map n r))

  abbrev of_root : Bytes → Option (InfoHashRoot P) → Option Peer
  of_root k none = none
  of_root k (some root) = active k root

  of_root-new :
      (law : IsMap Peer P) (k h : Bytes) (now serial : ℕ) (o : Option (InfoHashRoot P))
      → active k (get_or_else o (new_info_hash_root P h now serial)) ≡ of_root k o
  unfolding new_info_hash_root get_map
  of_root-new law k h now serial none = law.load-new k
  of_root-new law k h now serial (some r) = refl

module _ {P : SyncStringMap Peer} {R : SyncStringMap (InfoHashRoot P)} where
  abbrev of_shard : Bytes → Bytes → Option (Manager P R) → Option Peer
  of_shard h k none = none
  of_shard h k (some w) = of_root k (R.load h w.info_hash_map)

  of_shard-direct_store :
      (law : IsMap Peer P) (roots : IsMap (InfoHashRoot P) R) (h k hash : Bytes) (now : ℕ)
      (p : Peer) (w : Manager P R)
      → of_shard h k (some (direct_store hash now p w))
        ≡ (if eq_bytes hash h && eq_bytes p.id k then some p else of_shard h k (some w))
  unfolding direct_store find_or_add put_root get_key
  of_shard-direct_store law roots h k hash now p w =
      let fresh = new_info_hash_root P hash now w.next_serial in
      let added = R.load_or_store_lazy hash (λ _. fresh) w.info_hash_map in
      let stored = roots.load-store h hash (Root.store p.id p added.1) added.0 in
      let kept = roots.load-load_or_store_lazy h hash (λ _. fresh) w.info_hash_map in
      elim (Bool-cases (eq_bytes hash h)) [
        | inr e ↦ rw (stored, e, kept, e) refl
        | inl e ↦
            let same : hash ≡ h = (eq_bytes_iff hash h).0 e in
            rw
              (
                stored,
                e,
                active-store law k p.id p added.1,
                (roots.load_or_store_lazy_actual hash (λ _. fresh) w.info_hash_map).0,
                of_root-new law k hash now w.next_serial (R.load hash w.info_hash_map),
                same,
              )
              refl
      ]

get_at_in : {A : Type 0} (i : ℕ) (xs : List A) → i < length xs → (x : A) × (get_at i xs ≡ some x)
unfolding get_at
get_at_in i [] h = ground (arith, h)
get_at_in zero (x ∷ xs) h = (x, refl)
get_at_in (suc i) (x ∷ xs) h = get_at_in i xs (omega (arith, h))

get_at-set_at :
    {A : Type 0} (i : ℕ) (y : A) (xs : List A) → i < length xs → get_at i (set_at i y xs) ≡ some y
unfolding get_at set_at
get_at-set_at i y [] h = ground (arith, h)
get_at-set_at zero y (x ∷ xs) h = refl
get_at-set_at (suc i) y (x ∷ xs) h = get_at-set_at i y xs (omega (arith, h))

length-set_at : {A : Type 0} (i : ℕ) (y : A) (xs : List A) → length (set_at i y xs) ≡ length xs
unfolding set_at
length-set_at i y [] = refl
length-set_at zero y (x ∷ xs) = refl
length-set_at (suc i) y (x ∷ xs) = ap suc (length-set_at i y xs)

module _ {P : SyncStringMap Peer} {R : SyncStringMap (InfoHashRoot P)} {B : Bloom} {F : IpFilter}
    (uint64 : ℕ → ℕ) where
  -- The peer that the shard of a torrent has under a key.
  unfoldable pub find : Bytes → Bytes → MuxLocalManager P R B F → Option Peer
  find h k m = of_shard h k (get_at (pick_worker uint64 h m) m.local_list)

module _ {P : SyncStringMap Peer} {R : SyncStringMap (InfoHashRoot P)} {B : Bloom} {F : IpFilter}
    (law : IsMap Peer P) (roots : IsMap (InfoHashRoot P) R) (codec : Codec) (capacity : ℕ)
    (uint64 : ℕ → ℕ) (cfg : Config) (now : ℕ) where
  pick_worker-lt :
      (h : Bytes) (m : MuxLocalManager P R B F)
      → 0 < length m.local_list
      → pick_worker uint64 h m < length m.local_list
  unfolding pick_worker
  pick_worker-lt h m l = mod-lt (uint64 _) l

  -- The change of one shard.
  find-set_worker :
      (h hash k : Bytes) (p : Peer) (w : Manager P R) (m : MuxLocalManager P R B F)
      → 0 < length m.local_list
      → get_at (pick_worker uint64 hash m) m.local_list ≡ some w
      → find uint64 h k
          (set_worker uint64 (pick_worker uint64 hash m) (direct_store hash now p w) m)
        ≡ (if eq_bytes hash h && eq_bytes p.id k then some p else find uint64 h k m)
  unfolding find set_worker pick_worker
  find-set_worker h hash k p w m l e =
      let i = pick_worker uint64 hash m in
      let w' = direct_store hash now p w in
      let size = length-set_at i w' m.local_list in
      let there = get_at-set_at i w' m.local_list (pick_worker-lt hash m l) in
      let stored = of_shard-direct_store law roots h k hash now p w in
      elim (Bool-cases (eq_bytes hash h)) [
        | inl same ↦
            let at : pick_worker uint64 h m ≡ i =
              ap (λ b. pick_worker uint64 b m) (sym ((eq_bytes_iff hash h).0 same)) in
            rw (size, at, there, stored, e) refl
        | inr apart ↦ elim (Bool-cases (i == pick_worker uint64 h m)) [
          | inl b ↦
              let at : pick_worker uint64 h m ≡ i =
                omega (arith, (==_iff i (pick_worker uint64 h m)).0 b) in
              rw (size, at, there, stored, e, apart) refl
          | inr b ↦
              let other =
                get_at-set_at_other i (pick_worker uint64 h m) w' m.local_list
                  (λ q. ground (arith, b, q)) in
              rw (size, other, apart) refl
        ]
      ]

  length-load_store :
      (s : Store) (m : MuxLocalManager P R B F)
      → length (load_store codec capacity uint64 cfg now s m).local_list ≡ length m.local_list
  unfolding load_store set_worker
  length-load_store s m =
      elim (Bool-cases (ltb (s.peer.last_seen * second + cfg.ttl * second) now)) [
        | inl e ↦ rw e refl
        | inr e ↦ elim (Option-cases (get_at (pick_worker uint64 s.info_hash m) m.local_list)) [
          | inl n ↦ rw (e, n) refl
          | inr (w, n) ↦ rw (e, n) (length-set_at _ _ m.local_list)
        ]
      ]

  find-load_store :
      (h k : Bytes) (s : Store) (m : MuxLocalManager P R B F)
      → 0 < length m.local_list
      → find uint64 h k (load_store codec capacity uint64 cfg now s m)
        ≡ after_store cfg now h k s (find uint64 h k m)
  unfolding load_store peer_idl_to_common
  find-load_store h k s m l =
      let (w, n) =
        get_at_in (pick_worker uint64 s.info_hash m) m.local_list
          (pick_worker-lt s.info_hash m l) in
      elim (Bool-cases (ltb (s.peer.last_seen * second + cfg.ttl * second) now)) [
        | inl e ↦
            let dead : is_alive cfg now s ≡ false = ground (arith, e) in ground (arith, e, dead)
        | inr e ↦
            let alive : is_alive cfg now s ≡ true = ground (arith, e) in
            rw (e, n, alive)
              (ground (arith, find-set_worker h s.info_hash k (peer_idl_to_common s.peer) w m l n))
      ]

  -- Of the stores that are loaded, the last one of a torrent and a key that is alive is found there.
  pub find-load_all :
      (h k : Bytes) (ss : List Store) (m : MuxLocalManager P R B F)
      → 0 < length m.local_list
      → find uint64 h k (load_all codec capacity uint64 cfg now ss m)
        ≡ latest codec.empty_bytes cfg now h k ss (find uint64 h k m)
  unfolding load_all latest
  find-load_all h k [] m l = refl
  find-load_all h k (s ∷ ss) m l =
      find-load_all h k ss (load_store codec capacity uint64 cfg now (received codec s) m)
        (rw (length-load_store (received codec s) m) l)
      ∙ ap (latest codec.empty_bytes cfg now h k ss) (find-load_store h k (received codec s) m l)
