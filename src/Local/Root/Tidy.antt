-- ===== src/Local/Root/Tidy.antt =====
-- Every method of a root keeps it tidy.
use trunker.Base.{ℕ, ◌≡◌, refl, inl, none, arith}
use trunker.Base.Bytes.{Bytes, eq_bytes_iff}
use trunker.Mapx.{SyncStringMap, IsMap}
use trunker.Peer.{Peer}
use trunker.Local.Root.{
  InfoHashRoot, new_info_hash_root, get_map, load, load_and_delete, delete, load_or_store, store,
}
use trunker.Local.Root.View.{IsTidy}

module _ {P : SyncStringMap Peer} (law : IsMap Peer P) where
  pub new_info_hash_root-IsTidy : (h : Bytes) (now n : ℕ) → IsTidy (new_info_hash_root P h now n)
  unfolding new_info_hash_root get_map
  new_info_hash_root-IsTidy h now n = record {
    active_lt = omega arith;
    apart01 = λ k. inl (law.load-new k);
    apart02 = λ k. inl (law.load-new k);
    apart12 = λ k. inl (law.load-new k);
    spare_none = λ k. law.load-new k;
  }

  -- Deleting keys from any of the maps keeps a root tidy.
  pub record Shrinks (r s : InfoHashRoot P) : Type 0 where
    pub same : s.current_active ≡ r.current_active
    pub sub0 : (k : Bytes) → P.load k r.peer_map0 ≡ none → P.load k s.peer_map0 ≡ none
    pub sub1 : (k : Bytes) → P.load k r.peer_map1 ≡ none → P.load k s.peer_map1 ≡ none
    pub sub2 : (k : Bytes) → P.load k r.peer_map2 ≡ none → P.load k s.peer_map2 ≡ none

  pub Shrinks-IsTidy : {r s : InfoHashRoot P} → Shrinks r s → IsTidy r → IsTidy s
  unfolding get_map
  Shrinks-IsTidy {r} {s} h t = record {
    active_lt = omega (arith, h.same, t.active_lt);
    apart01 = λ k. ground (arith, h.sub0 k, h.sub1 k, t.apart01 k);
    apart02 = λ k. ground (arith, h.sub0 k, h.sub2 k, t.apart02 k);
    apart12 = λ k. ground (arith, h.sub1 k, h.sub2 k, t.apart12 k);
    spare_none =
        λ k. ground (arith, h.same, h.sub0 k, h.sub1 k, h.sub2 k, t.spare_none k, t.active_lt);
  }

  pub load_and_delete-IsTidy :
      (k : Bytes) (r : InfoHashRoot P) → IsTidy r → IsTidy (load_and_delete k r).0
  unfolding load_and_delete
  load_and_delete-IsTidy k r t = Shrinks-IsTidy shrinks t
    where
      shrinks : Shrinks r (load_and_delete k r).0
      shrinks = record {
        same = refl;
        sub0 = λ j h. ground (arith, h, law.load-load_and_delete j k r.peer_map0);
        sub1 = λ j h. ground (arith, h, law.load-load_and_delete j k r.peer_map1);
        sub2 = λ j h. ground (arith, h, law.load-load_and_delete j k r.peer_map2);
      }

  pub delete-IsTidy : (k : Bytes) (r : InfoHashRoot P) → IsTidy r → IsTidy (delete k r).0
  unfolding delete
  delete-IsTidy k r t = Shrinks-IsTidy shrinks t
    where
      shrinks : Shrinks r (delete k r).0
      shrinks = record {
        same = ground arith;
        sub0 = λ j h. ground (arith, h, law.load-delete j k r.peer_map0);
        sub1 = λ j h. ground (arith, h, law.load-delete j k r.peer_map1);
        sub2 = λ j h. ground (arith, h, law.load-delete j k r.peer_map2);
      }

  module _ (k : Bytes) (p : Peer) (r : InfoHashRoot P) (fresh : load k r ≡ none)
      (t : IsTidy r) where
    pub store-IsTidy : IsTidy (store k p r)
    unfolding store load
    store-IsTidy = record {
      active_lt = ground (arith, t.active_lt);
      apart01 = λ j. ground (
        arith,
        fresh,
        law.load-store j k p r.peer_map0,
        law.load-store j k p r.peer_map1,
        eq_bytes_iff k j,
        t.apart01 j,
      );
      apart02 = λ j. ground (
        arith,
        fresh,
        law.load-store j k p r.peer_map0,
        law.load-store j k p r.peer_map2,
        eq_bytes_iff k j,
        t.apart02 j,
      );
      apart12 = λ j. ground (
        arith,
        fresh,
        law.load-store j k p r.peer_map1,
        law.load-store j k p r.peer_map2,
        eq_bytes_iff k j,
        t.apart12 j,
      );
      spare_none = λ j. ground (arith, t.active_lt, t.spare_none j);
    }

    pub load_or_store-IsTidy : IsTidy (load_or_store k p r).0
    unfolding load_or_store load
    load_or_store-IsTidy = record {
      active_lt = ground (arith, t.active_lt);
      apart01 = λ j. ground (
        arith,
        fresh,
        law.load-load_or_store j k p r.peer_map0,
        law.load-load_or_store j k p r.peer_map1,
        eq_bytes_iff k j,
        t.apart01 j,
      );
      apart02 = λ j. ground (
        arith,
        fresh,
        law.load-load_or_store j k p r.peer_map0,
        law.load-load_or_store j k p r.peer_map2,
        eq_bytes_iff k j,
        t.apart02 j,
      );
      apart12 = λ j. ground (
        arith,
        fresh,
        law.load-load_or_store j k p r.peer_map1,
        law.load-load_or_store j k p r.peer_map2,
        eq_bytes_iff k j,
        t.apart12 j,
      );
      spare_none = λ j. ground (arith, t.active_lt, t.spare_none j);
    }
