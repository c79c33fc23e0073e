-- ===== src/Snapshot/Written.antt =====
-- What StoreToPersist writes for a shard: the frames of its peers, one after the other.
use trunker.Base.{
  ℕ, ◌≤◌, ◌<◌, ◌≡◌, refl, sym, ap, ◌∙◌, true, List, [], ◌∷◌, ◌++◌, map, length, take, All,
}
use mathlib.Core.List.{append-nil, append_assoc}
use trunker.Base.Bytes.{Bytes}
use trunker.Mapx.{SyncStringMap, IsMap}
use trunker.Peer.{Peer}
use trunker.Config.{Config}
use trunker.Ban.IpFilter.{IpFilter}
use trunker.Ban.Item.{Bloom}
use trunker.Rpc.{peer_common_to_idl}
use trunker.Local.Root.{InfoHashRoot, visit, range}
use trunker.Local.Handlers.{Manager}
use trunker.Mux.{MuxLocalManager}
use trunker.Snapshot.{
  Store, Codec, end_of_file, write_peer, write_root, write_roots, write_shard, load_file,
}
use trunker.Snapshot.Loaded.{IsCodec, IsStorable, frame_of, frame_of_eq, frames, whole_frames}
use trunker.Snapshot.Found.{latest, find, find-load_all}
use trunker.Snapshot.RoundTrip.{load_all, load_file-frames, load_file_cut}

unfoldable pub store_of : Bytes → Bytes × Peer → Store
store_of info_hash (key, value) = record { info_hash = info_hash; peer = peer_common_to_idl value }

module _ {P : SyncStringMap Peer} where
  unfoldable pub stores_of_root : Bytes → InfoHashRoot P → List Store
  unfolding store_of
  stores_of_root info_hash root =
      map (store_of info_hash) (P.entries root.peer_map0)
      ++ (map (store_of info_hash) (P.entries root.peer_map1)
          ++ map (store_of info_hash) (P.entries root.peer_map2))

  unfoldable pub stores_of_roots : List (Bytes × InfoHashRoot P) → List Store
  unfolding stores_of_root
  stores_of_roots [] = []
  stores_of_roots ((info_hash, root) ∷ rest) = stores_of_root info_hash root ++ stores_of_roots rest

  -- The peers of a shard as the file has them.
  unfoldable pub stores_of_shard : {R : SyncStringMap (InfoHashRoot P)} → Manager P R → List Store
  unfolding stores_of_roots
  stores_of_shard {R} worker = stores_of_roots (R.entries worker.info_hash_map)

frames-append :
    (codec : Codec) (xs ys : List Store)
    → frames codec (xs ++ ys) ≡ frames codec xs ++ frames codec ys
unfolding frames
frames-append codec [] ys = refl
frames-append codec (x ∷ xs) ys =
    ap (◌++◌ (frame_of codec x)) (frames-append codec xs ys)
    ∙ sym (append_assoc (frame_of codec x) (frames codec xs) (frames codec ys))

pub All-left {ℓ κ} :
    {A : Type ℓ} (Q : A → Type κ) (xs ys : List A) → All Q (xs ++ ys) → All Q xs × All Q ys
All-left Q [] ys h = (tt, h)
All-left Q (x ∷ xs) ys (h, t) = let (a, b) = All-left Q xs ys t in ((h, a), b)

module _ (codec : Codec) (capacity : ℕ) (small : capacity ≤ 4096) where
  write_peer_frame :
      (info_hash key : Bytes) (value : Peer) (out : Bytes)
      → IsStorable codec capacity (store_of info_hash (key, value))
      → write_peer codec info_hash key value out
        ≡ (out ++ frame_of codec (store_of info_hash (key, value)), true)
  unfolding write_peer store_of
  write_peer_frame info_hash key value out t =
      rw (t.encode_eq, t.compress_eq, frame_of_eq codec capacity small _ t, write_peer) refl

  visit-write_peer :
      (info_hash : Bytes) (entries : List (Bytes × Peer)) (out : Bytes)
      → All (IsStorable codec capacity) (map (store_of info_hash) entries)
      → visit (write_peer codec info_hash) entries out
        ≡ out ++ frames codec (map (store_of info_hash) entries)
  unfolding visit frames
  visit-write_peer info_hash [] out h = sym (append-nil out)
  visit-write_peer info_hash ((key, value) ∷ rest) out (t, ts) =
      let frame = frame_of codec (store_of info_hash (key, value)) in
      rw (write_peer_frame info_hash key value out t, visit)
        (visit-write_peer info_hash rest (out ++ frame) ts ∙ append_assoc out frame _)

  module _ {P : SyncStringMap Peer} where
    write_root-frames :
        (info_hash : Bytes) (root : InfoHashRoot P) (out : Bytes)
        → All (IsStorable codec capacity) (stores_of_root info_hash root)
        → write_root codec info_hash root out ≡ out ++ frames codec (stores_of_root info_hash root)
    unfolding write_root range stores_of_root
    write_root-frames info_hash root out h =
        let s0 = map (store_of info_hash) (P.entries root.peer_map0) in
        let s1 = map (store_of info_hash) (P.entries root.peer_map1) in
        let s2 = map (store_of info_hash) (P.entries root.peer_map2) in
        let (h0, h12) = All-left (IsStorable codec capacity) s0 (s1 ++ s2) h in
        let (h1, h2) = All-left (IsStorable codec capacity) s1 s2 h12 in
        let f = frames codec in
        rw
          (
            visit-write_peer info_hash (P.entries root.peer_map0) out h0,
            visit-write_peer info_hash (P.entries root.peer_map1) (out ++ f s0) h1,
            visit-write_peer info_hash (P.entries root.peer_map2) (out ++ f s0 ++ f s1) h2,
            frames-append codec s0 (s1 ++ s2),
            frames-append codec s1 s2,
            append_assoc out (f s0) (f s1),
            append_assoc out (f s0 ++ f s1) (f s2),
            append_assoc (f s0) (f s1) (f s2),
            write_root,
            range,
          )
          refl

    write_roots-frames :
        (roots : List (Bytes × InfoHashRoot P)) (out : Bytes)
        → All (IsStorable codec capacity) (stores_of_roots roots)
        → write_roots codec roots out ≡ out ++ frames codec (stores_of_roots roots)
    unfolding write_roots stores_of_roots frames
    write_roots-frames [] out h = sym (append-nil out)
    write_roots-frames ((info_hash, root) ∷ rest) out h =
        let here = stores_of_root info_hash root in
        let (h0, h1) = All-left (IsStorable codec capacity) here (stores_of_roots rest) h in
        write_roots-frames rest (write_root codec info_hash root out) h1
        ∙ rw
            (
              write_root-frames info_hash root out h0,
              frames-append codec here (stores_of_roots rest),
              append_assoc out (frames codec here) (frames codec (stores_of_roots rest)),
            )
            refl

    pub write_shard-frames :
        {R : SyncStringMap (InfoHashRoot P)} (worker : Manager P R)
        → All (IsStorable codec capacity) (stores_of_shard worker)
        → write_shard codec worker ≡ frames codec (stores_of_shard worker)
    unfolding write_shard stores_of_shard
    write_shard-frames {R} worker h = write_roots-frames (R.entries worker.info_hash_map) [] h

-- The file that StoreToPersist writes for a shard is read to its end by LoadFromPersist, which
-- loads the peers of the shard one after the other, in the order of the maps, when the libraries
-- keep their contracts and each peer fits the buffers of the reader.
pub load_file-write_shard :
    {P : SyncStringMap Peer} {R : SyncStringMap (InfoHashRoot P)} {B : Bloom} {F : IpFilter}
    (codec : Codec) (laws : IsCodec codec) (capacity : ℕ) (small : capacity ≤ 4096) (uint64 : ℕ → ℕ)
    (cfg : Config) (now : ℕ) (worker : Manager P R) (m : MuxLocalManager P R B F)
    → All (IsStorable codec capacity) (stores_of_shard worker)
    → load_file codec capacity uint64 cfg now (write_shard codec worker) m
      ≡ (load_all codec capacity uint64 cfg now (stores_of_shard worker) m, end_of_file)
load_file-write_shard codec laws capacity small uint64 cfg now worker m h =
    rw (write_shard-frames codec capacity small worker h)
      (load_file-frames codec laws capacity small uint64 cfg now (stores_of_shard worker) m h)

-- Of a file that was cut after k bytes, LoadFromPersist loads the peers whose frames are whole, and
-- no others: under each torrent and peer id the tracker then has the last of them whose time has not
-- run out, or what it had before. Where the peer's addresses are missing or empty, they are as the
-- decoder makes them of empty bytes. The tracker has a shard, the maps and the libraries keep their
-- contracts, and each peer fits the buffers of the reader.
pub load_file-write_shard_cut :
    {P : SyncStringMap Peer} {R : SyncStringMap (InfoHashRoot P)} {B : Bloom} {F : IpFilter}
    (law : IsMap Peer P) (roots : IsMap (InfoHashRoot P) R) (codec : Codec) (laws : IsCodec codec)
    (capacity : ℕ) (small : capacity ≤ 4096) (uint64 : ℕ → ℕ) (cfg : Config) (now : ℕ)
    (worker : Manager P R) (k : ℕ) (m : MuxLocalManager P R B F)
    → 0 < length m.local_list
    → All (IsStorable codec capacity) (stores_of_shard worker)
    → (hash key : Bytes)
    → find uint64 hash key
        (load_file codec capacity uint64 cfg now (take k (write_shard codec worker)) m).0
      ≡ latest codec.empty_bytes cfg now hash key
          (take (whole_frames codec k (stores_of_shard worker)) (stores_of_shard worker))
          (find uint64 hash key m)
load_file-write_shard_cut law roots codec laws capacity small uint64 cfg now worker k m l h hash
      key =
    ap (find uint64 hash key) (
      rw (write_shard-frames codec capacity small worker h)
        (load_file_cut codec laws capacity small uint64 cfg now (stores_of_shard worker) k m h))
    ∙ find-load_all law roots codec capacity uint64 cfg now hash key
        (take (whole_frames codec k (stores_of_shard worker)) (stores_of_shard worker)) m l
