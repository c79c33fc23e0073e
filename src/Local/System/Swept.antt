-- ===== src/Local/System/Swept.antt =====
-- Cleaning keeps every root of the manager sound.
use trunker.Base.{ℕ, ◌+◌, ◌*◌, sym, ◌∙◌, inl, inr, List, [], ◌∷◌, ltb, ◌==◌, Bool-cases, All}
use trunker.Base.Bytes.{Bytes}
use trunker.Base.Equality.{bytes_eq}
use trunker.Config.{Config, second}
use trunker.Mapx.{SyncStringMap, IsMap}
use trunker.Mapx.Entries.{All-lookup}
use trunker.Peer.{Peer}
use trunker.Local.Root.{InfoHashRoot, new_info_hash_root, load, range}
use trunker.Local.Root
use trunker.Local.Manager.{Effect}
use trunker.Local.Manager.Update.{IsSound, load_and_delete-IsSound}
use trunker.Local.Handlers.{Manager, put_root}
use trunker.Local.Clean.{sweep, delete_cleaned, clean_root, clean_up, clean_entries, clean}
use trunker.Local.System.Announced.{AllSound, put_root-AllSound, delete-AllSound}

module _ {P : SyncStringMap Peer} {R : SyncStringMap (InfoHashRoot P)} (law : IsMap Peer P)
    (roots : IsMap (InfoHashRoot P) R) (cfg : Config) where
  delete_cleaned-IsSound :
      (ks : List Bytes) (root : InfoHashRoot P)
      → IsSound cfg root
      → IsSound cfg (delete_cleaned ks root)
  unfolding delete_cleaned
  delete_cleaned-IsSound [] root s = s
  delete_cleaned-IsSound (k ∷ ks) root s =
      delete_cleaned-IsSound ks _ (load_and_delete-IsSound law cfg k root s)

  -- Soundness does not read the time of the last cleaning.
  last_clean-IsSound :
      (now : ℕ) (root : InfoHashRoot P)
      → IsSound cfg root
      → IsSound cfg (record root { last_clean = now })
  unfolding Root.get_map load
  last_clean-IsSound now root s = record {
    tidy = record {
      active_lt = s.tidy.active_lt;
      apart01 = s.tidy.apart01;
      apart02 = s.tidy.apart02;
      apart12 = s.tidy.apart12;
      spare_none = s.tidy.spare_none;
    };
    fits = s.fits;
  }

  clean_root-IsSound :
      (now : ℕ) (root : InfoHashRoot P) → IsSound cfg root → IsSound cfg (clean_root cfg now root).0
  unfolding clean_root
  clean_root-IsSound now root s = elim (Bool-cases (ltb now (root.last_clean + cfg.ttl * second))) [
    | inl early ↦ rw early s
    | inr due ↦ rw due (
        last_clean-IsSound now _ (
          delete_cleaned-IsSound
            (range {S = List Bytes × List Effect} (sweep cfg now) root ([], [])).0 root s))
  ]

  clean_up-AllSound :
      (now : ℕ) (key : Bytes) (root : InfoHashRoot P) (m : Manager P R)
      → IsSound cfg root
      → AllSound cfg m
      → AllSound cfg (clean_up cfg now key root m).0
  unfolding clean_up
  clean_up-AllSound now key root m s a =
      elim (Bool-cases (ltb now (root.last_clean + cfg.ttl * second))) [
        | inl early ↦ rw early a
        | inr due ↦ rw due (elim (Bool-cases (Root.len (clean_root cfg now root).0 == 0)) [
          | inl empty ↦ rw empty (delete-AllSound law roots cfg _ _ kept)
          | inr some_left ↦ rw some_left kept
        ])
      ]
    where
      kept : AllSound cfg (put_root key (clean_root cfg now root).0 m)
      kept = put_root-AllSound law roots cfg key _ m (clean_root-IsSound now root s) a

  clean_entries-AllSound :
      (now : ℕ) (es : List (Bytes × InfoHashRoot P)) (m : Manager P R)
      → All (λ e. IsSound cfg e.1) es
      → AllSound cfg m
      → AllSound cfg (clean_entries cfg now es m).0
  unfolding clean_entries
  clean_entries-AllSound now [] m h a = a
  clean_entries-AllSound now ((key, root) ∷ rest) m (s, h) a =
      clean_entries-AllSound now rest _ h (clean_up-AllSound now key root m s a)

  pub clean-AllSound :
      (now : ℕ) (m : Manager P R) → AllSound cfg m → AllSound cfg (clean cfg now m).0
  unfolding clean
  clean-AllSound now m a =
      clean_entries-AllSound now (R.entries m.info_hash_map) m
        (All-lookup (λ _ root. IsSound cfg root) (R.entries m.info_hash_map)
          (roots.entries-DistinctKeys m.info_hash_map)
          (λ k root e. a.sound k root (sym (roots.lookup-entries k m.info_hash_map) ∙ e)))
        a
