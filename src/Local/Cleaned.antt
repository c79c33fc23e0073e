-- ===== src/Local/Cleaned.antt =====
-- What cleanUp of biz/services/peer/local/clean.go deletes.
use trunker.Base.{
  ℕ, ◌+◌, ◌*◌, ◌≡◌, refl, sym, ap, ◌∙◌, inl, inr, Bool, true, false, ◌||◌, Option, none, some, List,
  [], ◌∷◌, ◌++◌, arith, ltb, if◌then◌else◌, Bool-cases, length, count, length-append, count-append,
}
use mathlib.Core.List.{append-nil, append_assoc}
use trunker.Base.Bytes.{Bytes, eq_bytes, eq_bytes_iff}
use trunker.Base.Equality.{bytes_eq}
use trunker.Config.{Config, second}
use trunker.Mapx.{SyncStringMap, IsMap}
use trunker.Mapx.Entries.{lookup, DistinctKeys}
use trunker.Peer.{Peer}
use trunker.Local.Root.{InfoHashRoot, load, visit, range}
use trunker.Local.Root
use trunker.Local.Root.View.{IsTidy, load-load_and_delete}
use trunker.Local.Manager.{Effect, is_expired}
use trunker.Local.Clean.{sweep, delete_cleaned, clean_root}
use trunker.Local.Respond.{values, peers_in}

has : Bytes → List Bytes → Bool
has j [] = false
has j (k ∷ ks) = eq_bytes k j || has j ks

has-append : (j : Bytes) (xs ys : List Bytes) → has j (xs ++ ys) ≡ (has j xs || has j ys)
unfolding has
has-append j [] ys = refl
has-append j (x ∷ xs) ys = ground (arith, has-append j xs ys)

-- What stays of a record.
abbrev pub keep_live : Config → ℕ → Option Peer → Option Peer
keep_live cfg now none = none
keep_live cfg now (some p) = if is_expired cfg now p then none else some p

module _ (cfg : Config) (now : ℕ) where
  expired_keys : List (Bytes × Peer) → List Bytes
  expired_keys [] = []
  expired_keys ((k, p) ∷ es) =
      let rest = expired_keys es in if is_expired cfg now p then k ∷ rest else rest

  abbrev is_expired_at : Option Peer → Bool
  is_expired_at none = false
  is_expired_at (some p) = is_expired cfg now p

  has-expired_keys :
      (j : Bytes) (es : List (Bytes × Peer))
      → DistinctKeys es
      → has j (expired_keys es) ≡ is_expired_at (lookup j es)
  unfolding has expired_keys lookup
  has-expired_keys j [] d = refl
  has-expired_keys j ((k, p) ∷ es) d =
      ground (arith, d.0, eq_bytes_iff k j, has-expired_keys j es d.1)

  length-expired_keys :
      (es : List (Bytes × Peer)) → length (expired_keys es) ≡ count (is_expired cfg now) (values es)
  unfolding expired_keys
  length-expired_keys [] = refl
  length-expired_keys ((k, p) ∷ es) = ground (arith, length-expired_keys es)

  visit-sweep :
      (es : List (Bytes × Peer)) (s : List Bytes × List Effect)
      → (visit (sweep cfg now) es s).0 ≡ s.0 ++ expired_keys es
  unfolding visit expired_keys sweep
  visit-sweep [] s = sym (append-nil s.0)
  visit-sweep ((k, p) ∷ es) (ks, closed) = elim (Bool-cases (is_expired cfg now p)) [
    | inl e ↦ rw e (visit-sweep es (ks ++ (k ∷ []), _) ∙ append_assoc ks (k ∷ []) (expired_keys es))
    | inr e ↦ rw e (visit-sweep es (ks, closed))
  ]

  module _ {P : SyncStringMap Peer} (law : IsMap Peer P) where
    load-delete_cleaned :
        (j : Bytes) (ks : List Bytes) (r : InfoHashRoot P)
        → load j (delete_cleaned ks r) ≡ (if has j ks then none else load j r)
    unfolding delete_cleaned has
    load-delete_cleaned j [] r = refl
    load-delete_cleaned j (k ∷ ks) r = ground (
      arith,
      load-delete_cleaned j ks (Root.load_and_delete k r).0,
      load-load_and_delete law j k r,
    )

    abbrev swept_keys : InfoHashRoot P → List Bytes
    swept_keys r =
        (expired_keys (P.entries r.peer_map0) ++ expired_keys (P.entries r.peer_map1))
        ++ expired_keys (P.entries r.peer_map2)

    range-sweep :
        (r : InfoHashRoot P)
        → (range {S = List Bytes × List Effect} (sweep cfg now) r ([], [])).0 ≡ swept_keys r
    unfolding range
    range-sweep r =
        visit-sweep (P.entries r.peer_map2) _
        ∙ ap (λ ks. ks ++ expired_keys (P.entries r.peer_map2))
            (visit-sweep (P.entries r.peer_map1) _
              ∙ ap (λ ks. ks ++ expired_keys (P.entries r.peer_map1))
                  (visit-sweep (P.entries r.peer_map0) ([], [])))

    has-swept_keys :
        (j : Bytes) (r : InfoHashRoot P)
        → IsTidy r
        → has j (swept_keys r) ≡ is_expired_at (load j r)
    unfolding load
    has-swept_keys j r t =
        let e0 = P.entries r.peer_map0 in
        let e1 = P.entries r.peer_map1 in
        let e2 = P.entries r.peer_map2 in
        ground (
          arith,
          has-append j (expired_keys e0 ++ expired_keys e1) (expired_keys e2),
          has-append j (expired_keys e0) (expired_keys e1),
          has-expired_keys j e0 (law.entries-DistinctKeys r.peer_map0),
          has-expired_keys j e1 (law.entries-DistinctKeys r.peer_map1),
          has-expired_keys j e2 (law.entries-DistinctKeys r.peer_map2),
          law.lookup-entries j r.peer_map0,
          law.lookup-entries j r.peer_map1,
          law.lookup-entries j r.peer_map2,
          t.apart01 j,
          t.apart02 j,
          t.apart12 j,
        )

    load-last_clean :
        (j : Bytes) (r : InfoHashRoot P) → load j (record r { last_clean = now }) ≡ load j r
    unfolding load
    load-last_clean j r = refl

    length-swept_keys :
        (r : InfoHashRoot P) → length (swept_keys r) ≡ count (is_expired cfg now) (peers_in r)
    length-swept_keys r =
        let e0 = P.entries r.peer_map0 in
        let e1 = P.entries r.peer_map1 in
        let e2 = P.entries r.peer_map2 in
        let c = is_expired cfg now in
        omega (
          arith,
          length-append (expired_keys e0 ++ expired_keys e1) (expired_keys e2),
          length-append (expired_keys e0) (expired_keys e1),
          length-expired_keys e0,
          length-expired_keys e1,
          length-expired_keys e2,
          count-append c (values e0) (values e1 ++ values e2),
          count-append c (values e1) (values e2),
        )

    kept :
        (j : Bytes) (o : Option Peer) {b : Bool}
        → b ≡ is_expired_at o
        → (if b then none else o) ≡ keep_live cfg now o
    kept j none e = ground arith
    kept j (some p) e = ground arith

    clean_root_cases :
        (r : InfoHashRoot P)
        → IsTidy r
        → (ltb now (r.last_clean + cfg.ttl * second) ≡ false
            → ((j : Bytes) → load j (clean_root cfg now r).0 ≡ keep_live cfg now (load j r))
              × ((clean_root cfg now r).1 ≡ count (is_expired cfg now) (peers_in r))
              × ((clean_root cfg now r).0.last_clean ≡ now))
          × (ltb now (r.last_clean + cfg.ttl * second) ≡ true
              → ((clean_root cfg now r).0 ≡ r) × ((clean_root cfg now r).1 ≡ 0))
    unfolding clean_root
    clean_root_cases r t = (
      λ due.
          rw (due, range-sweep r)
            (
              λ j.
                  load-last_clean j (delete_cleaned (swept_keys r) r)
                  ∙ load-delete_cleaned j (swept_keys r) r
                  ∙ kept j (load j r) (has-swept_keys j r t),
              length-swept_keys r,
              refl,
            ),
      λ early. rw early (refl, refl),
    )

    -- Cleaning a tidy root that was not cleaned within the last TTL deletes the records that have
    -- expired and keeps the others as they are; the number reported is that of the peers that had
    -- expired, and the time of the cleaning is noted. A root that was cleaned later than that is left as
    -- it is, and 0 is reported.
    pub clean_root_lem :
        (j : Bytes) (r : InfoHashRoot P)
        → IsTidy r
        → let early = ltb now (r.last_clean + cfg.ttl * second) in
          (load j (clean_root cfg now r).0
            ≡ (if early then load j r else keep_live cfg now (load j r)))
          × ((clean_root cfg now r).1
              ≡ (if early then 0 else count (is_expired cfg now) (peers_in r)))
          × ((clean_root cfg now r).0.last_clean ≡ (if early then r.last_clean else now))
    clean_root_lem j r t = elim (Bool-cases (ltb now (r.last_clean + cfg.ttl * second))) [
      | inl early ↦
          let (same, zero_cleaned) = (clean_root_cases r t).1 early in
          rw early (ap (load j) same, zero_cleaned, ap (λ s. s.last_clean) same)
      | inr due ↦
          let (kept_live, number, time) = (clean_root_cases r t).0 due in
          rw due (kept_live j, number, time)
    ]
