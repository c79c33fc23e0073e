-- ===== src/Mapx/SyncMap/Laws.antt =====
-- `Map` of utils/collections/mapx/sync.go implements the interface `SyncStringMap`.
use trunker.Base.{◌≡◌, refl, sym, arith, length}
use trunker.Base.Bytes.{Bytes, eq_bytes_iff}
use trunker.Base.Equality.{Eq, bytes_eq}
use trunker.Mapx.Entries.{
  lookup, DistinctKeys, lookup-insert, lookup-erase, insert-DistinctKeys, erase-DistinctKeys,
  length-insert, length-erase,
}
use trunker.Mapx.{SyncStringMap, IsMap}
use trunker.Mapx.SyncMap.{
  SyncMap, new_sync_map, delete, load, load_and_delete, load_or_store, load_or_store_lazy, range,
  store, len,
}

-- The counter is the number of entries, and no key has two entries.
pub record IsCounted {K V : Type 0} ⦃e : Eq K⦄ (s : SyncMap K V) : Type 0 where
  pub counted : s.length ≡ length s.m
  pub distinct : DistinctKeys s.m

module _ {K V : Type 0} ⦃e : Eq K⦄ where
  pub new_sync_map-IsCounted : IsCounted {K = K} {V = V} new_sync_map
  unfolding new_sync_map
  new_sync_map-IsCounted = record { counted = refl; distinct = tt }

  pub delete-IsCounted : (k : K) (s : SyncMap K V) → IsCounted s → IsCounted (delete k s).0
  unfolding delete
  delete-IsCounted k s h = record {
    counted = ground (arith, length-erase k s.m h.distinct);
    distinct = erase-DistinctKeys k s.m h.distinct;
  }

  pub load_and_delete-IsCounted :
      (k : K) (s : SyncMap K V) → IsCounted s → IsCounted (load_and_delete k s).0
  unfolding load_and_delete
  load_and_delete-IsCounted k s h = record {
    counted = ground (arith, length-erase k s.m h.distinct);
    distinct = erase-DistinctKeys k s.m h.distinct;
  }

  pub load_or_store-IsCounted :
      (k : K) (v : V) (s : SyncMap K V) → IsCounted s → IsCounted (load_or_store k v s).0
  unfolding load_or_store
  load_or_store-IsCounted k v s h =
      ground (arith, length-insert k v s.m, insert-DistinctKeys k v s.m h.distinct)

  pub load_or_store_lazy-IsCounted :
      (k : K) (f : Unit {0} → V) (s : SyncMap K V)
      → IsCounted s
      → IsCounted (load_or_store_lazy k f s).0
  unfolding load_or_store_lazy
  load_or_store_lazy-IsCounted k f s h =
      ground (arith, length-insert k (f tt) s.m, insert-DistinctKeys k (f tt) s.m h.distinct)

  pub store-IsCounted : (k : K) (v : V) (s : SyncMap K V) → IsCounted s → IsCounted (store k v s)
  unfolding store
  store-IsCounted k v s h =
      ground (arith, length-insert k v s.m, insert-DistinctKeys k v s.m h.distinct)

-- The maps with string keys that the constructor and the methods can reach.
abbrev pub Counted : Type 0 → Type 0
Counted V = (s : SyncMap Bytes V) × IsCounted s

-- `var _ SyncStringMap[int] = &Map[string, int]{}`
unfoldable pub sync_string_map : (V : Type 0) → SyncStringMap V
sync_string_map V = record {
  Map = Counted V;
  new = (new_sync_map, new_sync_map-IsCounted);
  delete = λ k s. (((delete k s.0).0, delete-IsCounted k s.0 s.1), (delete k s.0).1);
  load = λ k s. load k s.0;
  load_and_delete = λ k s.
      (((load_and_delete k s.0).0, load_and_delete-IsCounted k s.0 s.1), (load_and_delete k s.0).1);
  load_or_store = λ k v s. (
    ((load_or_store k v s.0).0, load_or_store-IsCounted k v s.0 s.1),
    (load_or_store k v s.0).1,
    (load_or_store k v s.0).2,
  );
  load_or_store_lazy = λ k f s. (
    ((load_or_store_lazy k f s.0).0, load_or_store_lazy-IsCounted k f s.0 s.1),
    (load_or_store_lazy k f s.0).1,
    (load_or_store_lazy k f s.0).2,
  );
  entries = λ s. range s.0;
  store = λ k v s. (store k v s.0, store-IsCounted k v s.0 s.1);
  len = λ s. len s.0;
}

-- After any calls of its methods the map behaves as the interface promises: each call changes the
-- binding of its own key alone and answers with the binding found, the counter that `Len` returns is
-- the number of keys, and `Range` visits each key once, with its value.
pub sync_string_map-IsMap : (V : Type 0) → IsMap V (sync_string_map V)
unfolding sync_string_map new_sync_map delete load load_and_delete load_or_store load_or_store_lazy
    range store len lookup
sync_string_map-IsMap V = record {
  load-new = λ j. refl;
  load-delete = λ j k s. lookup-erase j k s.0.m;
  delete_found = λ k s. refl;
  load-load_and_delete = λ j k s. lookup-erase j k s.0.m;
  load_and_delete_found = λ k s. refl;
  load-load_or_store = λ j k v s. ground (arith, lookup-insert j k v s.0.m, eq_bytes_iff k j);
  load_or_store_actual = λ k v s. ground arith;
  load-load_or_store_lazy =
      λ j k f s. ground (arith, lookup-insert j k (f tt) s.0.m, eq_bytes_iff k j);
  load_or_store_lazy_actual = λ k f s. ground arith;
  load-store = λ j k v s. ground (arith, lookup-insert j k v s.0.m);
  len-new = refl;
  len-delete = λ k s. ground (arith, length-erase k s.0.m s.1.distinct, s.1.counted);
  len-load_and_delete = λ k s. ground (arith, length-erase k s.0.m s.1.distinct, s.1.counted);
  len-load_or_store = λ k v s. ground arith;
  len-load_or_store_lazy = λ k f s. ground arith;
  len-store = λ k v s. ground arith;
  lookup-entries = λ k s. refl;
  length-entries = λ s. sym s.1.counted;
  entries-DistinctKeys = λ s. s.1.distinct;
}
