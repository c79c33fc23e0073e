-- ===== src/Local/Root/View.antt =====
-- What the methods of a root do to the record under each key. `Tidy` is the invariant.
use trunker.Base.{◌+◌, ◌%◌, ◌<◌, ◌≡◌, ◌⊎◌, none, some, arith, if◌then◌else◌}
use trunker.Base.Bytes.{Bytes, eq_bytes, eq_bytes_iff}
use trunker.Mapx.{SyncStringMap, IsMap}
use trunker.Peer.{Peer}
use trunker.Local.Root.{InfoHashRoot, get_map, load, load_and_delete, delete, load_or_store, store}

module _ {P : SyncStringMap Peer} where
  -- No key is in two of the three maps, and the one that the write head moves to next is empty.
  pub record IsTidy (r : InfoHashRoot P) : Type 0 where
    pub active_lt : r.current_active < 3
    pub apart01 : (k : Bytes) → (P.load k r.peer_map0 ≡ none) ⊎ (P.load k r.peer_map1 ≡ none)
    pub apart02 : (k : Bytes) → (P.load k r.peer_map0 ≡ none) ⊎ (P.load k r.peer_map2 ≡ none)
    pub apart12 : (k : Bytes) → (P.load k r.peer_map1 ≡ none) ⊎ (P.load k r.peer_map2 ≡ none)
    pub spare_none : (k : Bytes) → P.load k (get_map ((r.current_active + 1) % 3) r) ≡ none

module _ {P : SyncStringMap Peer} (law : IsMap Peer P) where
  pub load-load_and_delete :
      (j k : Bytes) (r : InfoHashRoot P)
      → load j (load_and_delete k r).0 ≡ (if eq_bytes k j then none else load j r)
  unfolding load load_and_delete
  load-load_and_delete j k r = ground (
    arith,
    law.load-load_and_delete j k r.peer_map0,
    law.load-load_and_delete j k r.peer_map1,
    law.load-load_and_delete j k r.peer_map2,
  )

  pub load_and_delete_found :
      (k : Bytes) (r : InfoHashRoot P) → IsTidy r → (load_and_delete k r).1 ≡ load k r
  unfolding load load_and_delete
  load_and_delete_found k r t = ground (
    arith,
    law.load_and_delete_found k r.peer_map0,
    law.load_and_delete_found k r.peer_map1,
    law.load_and_delete_found k r.peer_map2,
    t.apart01 k,
    t.apart02 k,
    t.apart12 k,
  )

  -- On a tidy root `Delete` deletes the record under its key, and no other.
  pub load-delete :
      (j k : Bytes) (r : InfoHashRoot P)
      → IsTidy r
      → load j (delete k r).0 ≡ (if eq_bytes k j then none else load j r)
  unfolding load delete
  load-delete j k r t = ground (
    arith,
    law.load-delete j k r.peer_map0,
    law.load-delete j k r.peer_map1,
    law.load-delete j k r.peer_map2,
    law.delete_found k r.peer_map0,
    law.delete_found k r.peer_map1,
    law.delete_found k r.peer_map2,
    eq_bytes_iff k j,
    t.apart01 k,
    t.apart02 k,
    t.apart12 k,
  )

  pub load-store :
      (j k : Bytes) (p : Peer) (r : InfoHashRoot P)
      → load k r ≡ none
      → load j (store k p r) ≡ (if eq_bytes k j then some p else load j r)
  unfolding load store
  load-store j k p r h = ground (
    arith,
    law.load-store j k p r.peer_map0,
    law.load-store j k p r.peer_map1,
    law.load-store j k p r.peer_map2,
    eq_bytes_iff k j,
  )

  pub load-load_or_store :
      (j k : Bytes) (p : Peer) (r : InfoHashRoot P)
      → load k r ≡ none
      → load j (load_or_store k p r).0 ≡ (if eq_bytes k j then some p else load j r)
  unfolding load load_or_store
  load-load_or_store j k p r h = ground (
    arith,
    law.load-load_or_store j k p r.peer_map0,
    law.load-load_or_store j k p r.peer_map1,
    law.load-load_or_store j k p r.peer_map2,
    eq_bytes_iff k j,
  )
