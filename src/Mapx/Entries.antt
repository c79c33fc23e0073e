-- ===== src/Mapx/Entries.antt =====
-- The entries of a map as a list, with what Go's maps do to them.
use trunker.Base.{
  suc, ◌≡◌, refl, Option, none, some, List, [], ◌∷◌, arith, if◌then◌else◌, is_some, length, All,
}
use trunker.Base.Equality.{Eq}

module _ {K V : Type 0} ⦃e : Eq K⦄ where
  -- The value at the first entry with key `k`.
  unfoldable pub lookup : K → List (K × V) → Option V
  lookup k [] = none
  lookup k ((j, v) ∷ m) = if e.beq j k then some v else lookup k m

  -- Write at `k`: in place, or as a new entry.
  unfoldable pub insert : K → V → List (K × V) → List (K × V)
  insert k v [] = (k, v) ∷ []
  insert k v ((j, w) ∷ m) = if e.beq j k then (k, v) ∷ m else (j, w) ∷ insert k v m

  unfoldable pub erase : K → List (K × V) → List (K × V)
  erase k [] = []
  erase k ((j, w) ∷ m) = let rest = erase k m in if e.beq j k then rest else (j, w) ∷ rest

  -- No two entries have one key.
  abbrev pub DistinctKeys : List (K × V) → Type 0
  DistinctKeys [] = Unit
  DistinctKeys ((k, v) ∷ m) = (lookup k m ≡ none) × DistinctKeys m

  pub lookup-insert :
      (j k : K) (v : V) (m : List (K × V))
      → lookup j (insert k v m) ≡ (if e.beq k j then some v else lookup j m)
  unfolding lookup insert
  lookup-insert j k v [] = refl
  lookup-insert j k v ((i, w) ∷ m) =
      ground (arith, e.beq_iff k j, e.beq_iff i k, e.beq_iff i j, lookup-insert j k v m)

  pub lookup-erase :
      (j k : K) (m : List (K × V)) → lookup j (erase k m) ≡ (if e.beq k j then none else lookup j m)
  unfolding lookup erase
  lookup-erase j k [] = ground arith
  lookup-erase j k ((i, w) ∷ m) =
      ground (arith, e.beq_iff k j, e.beq_iff i k, e.beq_iff i j, lookup-erase j k m)

  pub insert-DistinctKeys :
      (k : K) (v : V) (m : List (K × V)) → DistinctKeys m → DistinctKeys (insert k v m)
  unfolding lookup insert
  insert-DistinctKeys k v [] h = (refl, tt)
  insert-DistinctKeys k v ((i, w) ∷ m) h =
      ground
        (arith, e.beq_iff i k, e.beq_iff k i, lookup-insert i k v m, insert-DistinctKeys k v m h.1)

  pub erase-DistinctKeys : (k : K) (m : List (K × V)) → DistinctKeys m → DistinctKeys (erase k m)
  unfolding erase
  erase-DistinctKeys k [] h = tt
  erase-DistinctKeys k ((i, w) ∷ m) h =
      ground (arith, lookup-erase i k m, erase-DistinctKeys k m h.1)

  pub length-insert :
      (k : K) (v : V) (m : List (K × V))
      → length (insert k v m) ≡ (if is_some (lookup k m) then length m else suc (length m))
  unfolding lookup insert
  length-insert k v [] = refl
  length-insert k v ((i, w) ∷ m) = ground (arith, length-insert k v m)

  pub length-erase :
      (k : K) (m : List (K × V))
      → DistinctKeys m
      → length m ≡ (if is_some (lookup k m) then suc (length (erase k m)) else length (erase k m))
  unfolding lookup erase
  length-erase k [] h = refl
  length-erase k ((i, w) ∷ m) h = ground (arith, e.beq_iff i k, length-erase k m h.1)

  -- What holds of every binding holds of every entry.
  pub All-lookup :
      (Q : K → V → Type 0) (m : List (K × V))
      → DistinctKeys m
      → ((k : K) (v : V) → lookup k m ≡ some v → Q k v)
      → All (λ x. Q x.0 x.1) m
  unfolding lookup
  All-lookup Q [] d f = tt
  All-lookup Q ((k, v) ∷ m) d f = (
    f k v (ground (arith, e.beq_iff k k)),
    All-lookup Q m d.1 (λ j w h. f j w (ground (arith, h, d.0, e.beq_iff k j))),
  )
