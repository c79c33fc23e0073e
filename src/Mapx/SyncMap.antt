-- ===== src/Mapx/SyncMap.antt =====
-- utils/collections/mapx/sync.go: `Map`, a `sync.Map` with a counter of its keys. Each method is one
-- step: what other goroutines do between the map and its counter is not modelled. The values of a
-- `sync.Map` are untyped in Go; here they have the type that the wrapper casts them to.

pub mod Laws
use trunker.Base.{
  ℕ, ◌+◌, ◌-◌, Bool, true, false, Option, none, some, List, [], if◌then◌else◌, is_some,
}
use trunker.Base.Equality.{Eq}
use trunker.Mapx.Entries.{lookup, insert, erase}

-- The counter is an int64 that falls below 0 for no sequence of calls (`IsCounted`).
pub record SyncMap (K V : Type 0) : Type 0 where
  pub m : List (K × V)
  pub length : ℕ

module _ {K V : Type 0} ⦃e : Eq K⦄ where
  unfoldable pub new_sync_map : SyncMap K V
  new_sync_map = record { m = []; length = 0 }

  unfoldable pub delete : K → SyncMap K V → SyncMap K V × Bool
  delete key s =
      let ok = is_some (lookup key s.m) in
      (record s { m = erase key s.m; length = if ok then s.length - 1 else s.length }, ok)

  unfoldable pub load : K → SyncMap K V → Option V
  load key s = lookup key s.m

  unfoldable pub load_and_delete : K → SyncMap K V → SyncMap K V × Option V
  load_and_delete key s =
      let loaded = is_some (lookup key s.m) in
      (
        record s { m = erase key s.m; length = if loaded then s.length - 1 else s.length },
        lookup key s.m,
      )

  unfoldable pub load_or_store : K → V → SyncMap K V → SyncMap K V × V × Bool
  load_or_store key value s = elim (lookup key s.m) [
    | some a ↦ (s, a, true)
    | none ↦ (record s { m = insert key value s.m; length = s.length + 1 }, value, false)
  ]

  unfoldable pub range : SyncMap K V → List (K × V)
  range s = s.m

  unfoldable pub store : K → V → SyncMap K V → SyncMap K V
  store key value s = elim (lookup key s.m) [
    | none ↦ record s { m = insert key value s.m; length = s.length + 1 }
    | some a ↦ record s { m = insert key value s.m }
  ]

  -- The value is made only if the key is missing; no other goroutine stores it in between.
  unfoldable pub load_or_store_lazy : K → (Unit {0} → V) → SyncMap K V → SyncMap K V × V × Bool
  load_or_store_lazy key lazy s = elim (lookup key s.m) [
    | some a ↦ (s, a, true)
    | none ↦ (record s { m = insert key (lazy tt) s.m; length = s.length + 1 }, lazy tt, false)
  ]

  unfoldable pub len : SyncMap K V → ℕ
  len s = s.length
