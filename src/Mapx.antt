-- ===== src/Mapx.antt =====
-- utils/collections/mapx: the interface `SyncStringMap` (interface.go) that the tracker's state is
-- kept in. `NewSkipMap` (skipmap.go) takes its implementation from a library, so the interface and
-- the documented behaviour of its operations, `IsMap`, are parameters of what uses it.

pub mod Entries
pub mod SyncMap
use trunker.Base.{
  ℕ, suc, ◌≡◌, Bool, Option, none, some, List, [], ◌∷◌, is_some, get_or_else, length, if◌then◌else◌,
}
use Entries.{lookup, DistinctKeys}
use trunker.Base.Bytes.{Bytes, eq_bytes}
use trunker.Base.Equality.{bytes_eq}

-- One operation may change the map, so it returns the map too. `entries` is what `Range` visits, in
-- its order.
pub record SyncStringMap (V : Type 0) : Type 1 where
  pub Map : Type 0
  pub new : Map
  pub delete : Bytes → Map → Map × Bool
  pub load : Bytes → Map → Option V
  pub load_and_delete : Bytes → Map → Map × Option V
  pub load_or_store : Bytes → V → Map → Map × V × Bool
  pub load_or_store_lazy : Bytes → (Unit {0} → V) → Map → Map × V × Bool
  pub entries : Map → List (Bytes × V)
  pub store : Bytes → V → Map → Map
  pub len : Map → ℕ

module _ (V : Type 0) (s : SyncStringMap V) where
  open s use {
    Map, new, delete, load, load_and_delete, load_or_store, load_or_store_lazy, entries, store, len,
  }

  -- What the operations do to the binding of each key and to the number of keys.
  pub record IsMap : Type 0 where
    pub load-new : (j : Bytes) → load j new ≡ none
    pub load-delete :
        (j k : Bytes) (m : Map) → load j (delete k m).0 ≡ (if eq_bytes k j then none else load j m)
    pub delete_found : (k : Bytes) (m : Map) → (delete k m).1 ≡ is_some (load k m)
    pub load-load_and_delete :
        (j k : Bytes) (m : Map)
        → load j (load_and_delete k m).0 ≡ (if eq_bytes k j then none else load j m)
    pub load_and_delete_found : (k : Bytes) (m : Map) → (load_and_delete k m).1 ≡ load k m
    pub load-load_or_store :
        (j k : Bytes) (v : V) (m : Map)
        → load j (load_or_store k v m).0
          ≡ (if eq_bytes k j then some (get_or_else (load k m) v) else load j m)
    pub load_or_store_actual :
        (k : Bytes) (v : V) (m : Map)
        → ((load_or_store k v m).1 ≡ get_or_else (load k m) v)
          × ((load_or_store k v m).2 ≡ is_some (load k m))
    pub load-load_or_store_lazy :
        (j k : Bytes) (f : Unit {0} → V) (m : Map)
        → load j (load_or_store_lazy k f m).0
          ≡ (if eq_bytes k j then some (get_or_else (load k m) (f tt)) else load j m)
    pub load_or_store_lazy_actual :
        (k : Bytes) (f : Unit {0} → V) (m : Map)
        → ((load_or_store_lazy k f m).1 ≡ get_or_else (load k m) (f tt))
          × ((load_or_store_lazy k f m).2 ≡ is_some (load k m))
    pub load-store :
        (j k : Bytes) (v : V) (m : Map)
        → load j (store k v m) ≡ (if eq_bytes k j then some v else load j m)
    pub len-new : len new ≡ 0
    pub len-delete :
        (k : Bytes) (m : Map)
        → len m ≡ (if is_some (load k m) then suc (len (delete k m).0) else len (delete k m).0)
    pub len-load_and_delete :
        (k : Bytes) (m : Map)
        → len m ≡ (
            if is_some (load k m)
            then suc (len (load_and_delete k m).0)
            else len (load_and_delete k m).0)
    pub len-load_or_store :
        (k : Bytes) (v : V) (m : Map)
        → len (load_or_store k v m).0 ≡ (if is_some (load k m) then len m else suc (len m))
    pub len-load_or_store_lazy :
        (k : Bytes) (f : Unit {0} → V) (m : Map)
        → len (load_or_store_lazy k f m).0 ≡ (if is_some (load k m) then len m else suc (len m))
    pub len-store :
        (k : Bytes) (v : V) (m : Map)
        → len (store k v m) ≡ (if is_some (load k m) then len m else suc (len m))
    pub lookup-entries : (k : Bytes) (m : Map) → lookup k (entries m) ≡ load k m
    pub length-entries : (m : Map) → length (entries m) ≡ len m
    pub entries-DistinctKeys : (m : Map) → DistinctKeys (entries m)
