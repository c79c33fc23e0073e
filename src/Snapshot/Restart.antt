-- ===== src/Snapshot/Restart.antt =====
-- A restart of the tracker: StoreToPersist of one run, and LoadFromPersist of the next.
use trunker.Base.{
  ℕ, zero, suc, ◌≤◌, ◌<◌, ◌≡◌, refl, sym, ap, ◌∙◌, true, false, some, List, [], ◌∷◌, ◌++◌, map,
  length, drop, All,
}
use mathlib.Core.List.{append-nil}
use trunker.Base.Bytes.{Bytes}
use mathlib.Core.List.{Perm}
use mathlib.Core.List.Perm
use trunker.Mapx.{SyncStringMap, IsMap}
use trunker.Peer.{Peer}
use trunker.Config.{Config}
use trunker.Ban.IpFilter.{IpFilter}
use trunker.Ban.Item.{Bloom}
use trunker.Local.Root.{InfoHashRoot}
use trunker.Local.Handlers.{Manager}
use trunker.Mux.{MuxLocalManager}
use trunker.Snapshot.{
  Store, Codec, File, shard_file, end_of_file, is_panic, write_shard, load_store, load_file,
  load_files, load_from_persist, store_to_persist,
}
use trunker.Snapshot.Loaded.{received, IsCodec, IsStorable}
use trunker.Snapshot.Found.{latest, find, find-load_all}
use trunker.Snapshot.RoundTrip.{load_all}
use trunker.Snapshot.Written.{stores_of_shard, load_file-write_shard, All-left}

-- All the peers of a manager, shard by shard.
unfoldable pub stores_of_shards :
    {P : SyncStringMap Peer} {R : SyncStringMap (InfoHashRoot P)} → List (Manager P R) → List Store
unfolding stores_of_shard
stores_of_shards [] = []
stores_of_shards (w ∷ ws) = stores_of_shard w ++ stores_of_shards ws

no_files : (n : ℕ) → ◌≡◌ {A = List File} (drop n []) []
no_files zero = refl
no_files (suc n) = refl

module _ {P : SyncStringMap Peer} {R : SyncStringMap (InfoHashRoot P)} {B : Bloom} {F : IpFilter}
    (codec : Codec) (laws : IsCodec codec) (capacity : ℕ) (small : capacity ≤ 4096) (uint64 : ℕ → ℕ)
    (cfg : Config) (now : ℕ) where
  load_all-append :
      (xs ys : List Store) (m : MuxLocalManager P R B F)
      → load_all codec capacity uint64 cfg now (xs ++ ys) m
        ≡ load_all codec capacity uint64 cfg now ys (load_all codec capacity uint64 cfg now xs m)
  unfolding load_all
  load_all-append [] ys m = refl
  load_all-append (x ∷ xs) ys m =
      load_all-append xs ys (load_store codec capacity uint64 cfg now (received codec x) m)

  load_files_step :
      (file : Bytes) (fs : List File) (m m' : MuxLocalManager P R B F)
      → load_file codec capacity uint64 cfg now file m ≡ (m', end_of_file)
      → load_files codec capacity uint64 cfg now (record { content = file; locked = false } ∷ fs) m
        ≡ load_files codec capacity uint64 cfg now fs m'
  unfolding load_files is_panic
  load_files_step file fs m m' e =
      rw (e, load_files) (ap (λ x. load_files codec capacity uint64 cfg now fs x.0) e)

  load_files-shards :
      (ws : List (Manager P R)) (m : MuxLocalManager P R B F)
      → All (IsStorable codec capacity) (stores_of_shards ws)
      → load_files codec capacity uint64 cfg now (map (shard_file codec) ws) m
        ≡ some (load_all codec capacity uint64 cfg now (stores_of_shards ws) m)
  unfolding load_files load_all stores_of_shards is_panic
  load_files-shards [] m h = refl
  load_files-shards (w ∷ ws) m h =
      let (h0, h1) =
        All-left (IsStorable codec capacity) (stores_of_shard w) (stores_of_shards ws) h in
      let m' = load_all codec capacity uint64 cfg now (stores_of_shard w) m in
      load_files_step (write_shard codec w) (map (shard_file codec) ws) m m'
        (load_file-write_shard codec laws capacity small uint64 cfg now w m h0)
      ∙ (load_files-shards ws m' h1
          ∙ ap some (sym (load_all-append (stores_of_shard w) (stores_of_shards ws) m)))

  -- When a tracker with snapshots starts after one has stopped, then in whatever order it reads the
  -- files, no panic ends it and the files are gone; and under each torrent and peer id it has the last
  -- of the old peers, shard by shard, whose time has not run out, or what it had before if there is
  -- none. Where the peer's addresses are missing or empty, they are as the decoder makes them of empty
  -- bytes. The new tracker has at least one shard, and may have another number of them than the old
  -- one; the maps and the libraries keep their contracts, each peer fits the reader's buffers, and
  -- there were no other files.
  pub load_from_persist-store_to_persist :
      (law : IsMap Peer P) (roots : IsMap (InfoHashRoot P) R) (old new : MuxLocalManager P R B F)
      (ws : List (Manager P R))
      → Perm ws old.local_list
      → 0 < length new.local_list
      → All (IsStorable codec capacity) (stores_of_shards ws)
      → let files = map (shard_file codec) ws in
        Perm files (store_to_persist codec true old [])
        × ((m : MuxLocalManager P R B F) × (load_from_persist codec capacity uint64 true cfg now
                files new
              ≡ some (m, []))
            × ((hash key : Bytes)
                → find uint64 hash key m
                  ≡ latest codec.empty_bytes cfg now hash key
                      (stores_of_shards ws)
                      (find uint64 hash key new)))
  unfolding load_from_persist store_to_persist
  load_from_persist-store_to_persist law roots old new ws p l h = (
    rw
        (
          no_files (length old.local_list),
          append-nil {A = File} (map (shard_file codec) old.local_list),
        )
        (Perm.map (shard_file codec) p),
    (
      load_all codec capacity uint64 cfg now (stores_of_shards ws) new,
      rw (load_files-shards ws new h, load_from_persist) refl,
      λ hash key.
          find-load_all law roots codec capacity uint64 cfg now hash key (stores_of_shards ws) new
            l,
    ),
  )
