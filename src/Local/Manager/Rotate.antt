-- ===== src/Local/Manager/Rotate.antt =====
-- `rotate` of `Local.Manager`: the write head moves to the spare map, and the map written before the
-- last one becomes the spare.
use trunker.Base.{◌≡◌, ◌≢◌, ◌⊎◌, none, arith}
use trunker.Base.Bytes.{Bytes}
use trunker.Config.{Config}
use trunker.Mapx.{SyncStringMap, IsMap}
use trunker.Peer.{Peer}
use trunker.Local.Root.{InfoHashRoot, get_map, load}
use trunker.Local.Root.View.{IsTidy}
use trunker.Local.Manager.Update.{IsSound, sub-IsSound}
use trunker.Local.Manager.{rotate}

module _ {P : SyncStringMap Peer} (law : IsMap Peer P) (cfg : Config) where
  rotate-IsTidy : (r : InfoHashRoot P) → IsTidy r → IsTidy (rotate cfg r)
  unfolding rotate
  rotate-IsTidy r t = record {
    active_lt = ground (arith, t.active_lt);
    apart01 = λ k. ground (arith, t.apart01 k, law.load-new k);
    apart02 = λ k. ground (arith, t.apart02 k, law.load-new k);
    apart12 = λ k. ground (arith, t.apart12 k, law.load-new k);
    spare_none = λ k. ground (arith, t.active_lt, t.spare_none k, law.load-new k);
  }

  load-rotate :
      (k : Bytes) (r : InfoHashRoot P)
      → IsTidy r
      → (load k (rotate cfg r) ≡ none) ⊎ (load k (rotate cfg r) ≡ load k r)
  unfolding rotate load
  load-rotate k r t =
      ground
        (arith, law.load-new k, t.active_lt, t.spare_none k, t.apart01 k, t.apart02 k, t.apart12 k)

  pub rotate-IsSound : (r : InfoHashRoot P) → IsSound cfg r → IsSound cfg (rotate cfg r)
  rotate-IsSound r s = sub-IsSound law cfg s (rotate-IsTidy r s.tidy) (λ k. load-rotate k r s.tidy)

  -- Rotating keeps every record of the map that was written to.
  pub rotate_keeps_active :
      (k : Bytes) (r : InfoHashRoot P)
      → IsTidy r
      → P.load k (get_map r.current_active r) ≢ none
      → load k (rotate cfg r) ≡ load k r
  unfolding rotate load
  rotate_keeps_active k r t h =
      ground
        (arith, law.load-new k, t.active_lt, t.spare_none k, t.apart01 k, t.apart02 k, t.apart12 k)
