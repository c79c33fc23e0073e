-- ===== src/Snapshot.antt =====
-- biz/services/peer/mux_local/persist.go: the peers are written to one file for each shard when the
-- tracker stops, and read back when it starts. The counts for the log are left out, and so are
-- errors of the disk: a file is its bytes.
pub mod Input
pub mod Frames
pub mod Loaded
pub mod RoundTrip
pub mod Ends
pub mod Written
pub mod Found
pub mod Restart
mod Tests
use mathlib.Core.Option as Option
use trunker.Base.{
  ℕ, zero, suc, ◌+◌, ◌-◌, ◌*◌, ◌/◌, ◌%◌, ◌^◌, ◌≤◌, ◌<◌, min, ◌≡◌, refl, sym, ap, ap₂, ◌∙◌, ◌≢◌, ◌↔◌,
  ◌⊎◌, inl, inr, Bool, true, false, not, ◌&&◌, ◌||◌, Option, none, some, List, [], ◌∷◌, ◌++◌, map,
  arith, ltb, leb, ◌==◌, if◌then◌else◌, ltb→lt, lt→ltb, leb→le, ==_iff, tests, Bool-cases,
  Option-cases, is_some, get_or_else, or_else, length, take, drop, replicate, All, filter, count,
  length-append, All-append, take-append, drop-append, filter_skip, filter_add, length-take,
  length-drop, count-append,
}
use trunker.Base.Bytes.{Bytes}
use trunker.Base.Little.{put_le, get_le}
use trunker.Config.{Config, second}
use trunker.Mapx.{SyncStringMap}
use trunker.Net.{IpAddr}
use trunker.Peer.{Peer}
use trunker.Ban.IpFilter.{IpFilter}
use trunker.Ban.Item.{Bloom}
use trunker.Rpc.{IdlPeer, peer_common_to_idl, peer_idl_to_common}
use trunker.Local.Root.{InfoHashRoot, range}
use trunker.Local.Handlers.{Manager, direct_store}
use trunker.Mux.{MuxLocalManager, get_at, pick_worker, set_worker}
use Input.{Reader, new_reader, read, read_full}

-- trunker.Store of the IDL, where both fields are required: a Store without a peer is not decoded.
pub record Store : Type 0 where
  pub info_hash : Bytes
  pub peer : IdlPeer

-- The libraries that encode and compress a Store. `decompress n` writes into a buffer of n bytes, and
-- `empty_bytes` is what an address that is encoded as no bytes is decoded to.
pub record Codec : Type 0 where
  pub encode : Store → Option Bytes
  pub compress : Bytes → Option Bytes
  pub decompress : ℕ → Bytes → Option Bytes
  pub decode : Bytes → Option Store
  pub empty_bytes : IpAddr

-- Why the reading of a file ends.
pub data Stop : Type 0 where
  end_of_file zero_length read_failed not_decompressed not_decoded panic out_of_fuel : Stop

-- The data of a frame with the array behind `raminBuf` after it.
pub record Filled : Type 0 where
  pub data_read : Bytes
  pub ramin : Bytes
  pub reader : Reader

-- The loop `for remain > 0`: `first` is `data[0:readCount]`, and a read overwrites the front of
-- `raminBuf[:remain]`, all of which is appended to it.
unfoldable pub fill : ℕ → Bytes → ℕ → Filled → Filled ⊎ Stop
unfolding read
fill zero first remain f = inr out_of_fuel
fill (suc fuel) first remain f = elim (remain == 0) [
  | true ↦ inl f
  | false ↦ elim (read remain f.reader) [
    | none ↦ inr read_failed
    | some (bs, r) ↦
        let ramin = bs ++ drop (length bs) f.ramin in
        fill fuel first (remain - length bs)
          (record { data_read = first ++ take remain ramin; ramin = ramin; reader = r })
  ]
]

-- `capacity` is that of the buffers `data` and `raminBuf`, which are asked for with length 400 and
-- sliced to the size of the frame.
unfoldable pub read_frame : ℕ → ℕ → Bytes → Reader → Filled ⊎ Stop
unfolding fill read
read_frame capacity size ramin r = elim (ltb capacity size) [
  | true ↦ inr panic
  | false ↦ elim (read size r) [
    | none ↦ inr read_failed
    | some (bs, r') ↦
        fill (size - length bs + 1) bs (size - length bs)
          (record { data_read = bs; ramin = ramin; reader = r' })
  ]
]

module _ (codec : Codec) (capacity : ℕ) where
  unfoldable pub decode_frame : Bytes → Store ⊎ Stop
  decode_frame frame = elim (codec.decompress 400 frame) [
    | none ↦ inr not_decompressed
    | some raw ↦ elim (codec.decode raw) [ none ↦ inr not_decoded | some store ↦ inl store ]
  ]

  -- One round of the loop of LoadFromPersist, up to the decoded Store.
  unfoldable pub next_store : Bytes → Reader → (Store × Bytes × Reader) ⊎ Stop
  unfolding read_full read_frame decode_frame get_le
  next_store ramin r = elim (read_full 4 4 r) [
    | none ↦ inr end_of_file
    | some (head, r') ↦ elim (get_le head == 0) [
      | true ↦ inr zero_length
      | false ↦ elim (read_frame capacity (get_le head) ramin r') [
        | inr stop ↦ inr stop
        | inl f ↦ elim (decode_frame f.data_read) [
          | inr stop ↦ inr stop
          | inl store ↦ inl (store, f.ramin, f.reader)
        ]
      ]
    ]
  ]

module _ (codec : Codec) where
  -- What one call of the callback of `value.Range` writes, and whether the visit goes on.
  unfoldable pub write_peer : Bytes → Bytes → Peer → Bytes → Bytes × Bool
  unfolding put_le
  write_peer info_hash key value out =
      elim (codec.encode (record { info_hash = info_hash; peer = peer_common_to_idl value })) [
        | none ↦ (out, true)
        | some raw ↦ elim (codec.compress raw) [
          | none ↦ (out, false)
          | some c ↦ (out ++ (put_le 4 (length c) ++ c), true)
        ]
      ]

module _ {P : SyncStringMap Peer} {R : SyncStringMap (InfoHashRoot P)} {B : Bloom} {F : IpFilter}
    (codec : Codec) (capacity : ℕ) (uint64 : ℕ → ℕ) where
  -- The peers whose time has run out are left out.
  unfoldable pub load_store : Config → ℕ → Store → MuxLocalManager P R B F → MuxLocalManager P R B F
  unfolding pick_worker get_at set_worker
  load_store cfg now store m =
      let i = pick_worker uint64 store.info_hash m in
      if ltb (store.peer.last_seen * second + cfg.ttl * second) now
      then m
      else elim (get_at i m.local_list) [
        | none ↦ m
        | some worker ↦
            set_worker uint64 i
              (direct_store store.info_hash now (peer_idl_to_common store.peer) worker) m
      ]

  -- The loop of LoadFromPersist over one file.
  unfoldable pub load_loop :
      Config → ℕ → ℕ → Bytes → Reader → MuxLocalManager P R B F → MuxLocalManager P R B F × Stop
  unfolding next_store load_store
  load_loop cfg now zero ramin r m = (m, out_of_fuel)
  load_loop cfg now (suc fuel) ramin r m = elim (next_store codec capacity ramin r) [
    | inr stop ↦ (m, stop)
    | inl (store, ramin', r') ↦ load_loop cfg now fuel ramin' r' (load_store cfg now store m)
  ]

  -- A round reads at least four bytes.
  unfoldable pub load_file :
      Config → ℕ → Bytes → MuxLocalManager P R B F → MuxLocalManager P R B F × Stop
  unfolding load_loop
  load_file cfg now file m =
      load_loop cfg now (length file + 1) (replicate capacity 0) (new_reader file) m

-- What StoreToPersist writes to the file of one shard.
module _ {P : SyncStringMap Peer} (codec : Codec) where
  unfoldable pub write_root : Bytes → InfoHashRoot P → Bytes → Bytes
  unfolding write_peer
  write_root info_hash root out = range (write_peer codec info_hash) root out

  unfoldable pub write_roots : List (Bytes × InfoHashRoot P) → Bytes → Bytes
  write_roots [] out = out
  write_roots ((info_hash, root) ∷ rest) out = write_roots rest (write_root info_hash root out)

  unfoldable pub write_shard : {R : SyncStringMap (InfoHashRoot P)} → Manager P R → Bytes
  unfolding write_roots
  write_shard {R} worker = write_roots (R.entries worker.info_hash_map) []

-- A file `<PersistFile>.<i>`; another process may hold its lock.
pub record File : Type 0 where
  pub content : Bytes
  pub locked : Bool

-- A panic in a goroutine ends the tracker.
unfoldable pub is_panic : Stop → Bool
is_panic panic = true
is_panic _ = false

module _ {P : SyncStringMap Peer} {R : SyncStringMap (InfoHashRoot P)} {B : Bloom} {F : IpFilter}
    (codec : Codec) (capacity : ℕ) (uint64 : ℕ → ℕ) where
  -- The goroutines of LoadFromPersist, each whole, on the files in the order in which they run; none
  -- is a tracker that ended.
  unfoldable pub load_files :
      Config → ℕ → List File → MuxLocalManager P R B F → Option (MuxLocalManager P R B F)
  unfolding load_file is_panic
  load_files cfg now [] m = some m
  load_files cfg now (f ∷ fs) m =
      let loaded = load_file codec capacity uint64 cfg now f.content m in
      elim f.locked [
        | true ↦ load_files cfg now fs m
        | false ↦ elim (is_panic loaded.1) [ true ↦ none | false ↦ load_files cfg now fs loaded.0 ]
      ]

  -- All the files are removed in the end. `enable` is Memory.EnablePersist.
  unfoldable pub load_from_persist :
      Bool
      → Config
      → ℕ
      → List File
      → MuxLocalManager P R B F
      → Option (MuxLocalManager P R B F × List File)
  unfolding load_files
  load_from_persist enable cfg now files m = elim enable [
    | false ↦ some (m, files)
    | true ↦ Option.map (λ m'. (m', [])) (load_files cfg now files m)
  ]

-- The file of a shard after StoreToPersist.
abbrev pub shard_file :
    {P : SyncStringMap Peer} {R : SyncStringMap (InfoHashRoot P)} → Codec → Manager P R → File
shard_file codec w = record { content = write_shard codec w; locked = false }

module _ {P : SyncStringMap Peer} {R : SyncStringMap (InfoHashRoot P)} {B : Bloom} {F : IpFilter}
    (codec : Codec) where
  -- Each shard's file is written anew, and files of numbers beyond the shards stay.
  unfoldable pub store_to_persist : Bool → MuxLocalManager P R B F → List File → List File
  unfolding write_shard
  store_to_persist enable m files =
      if enable
      then map (shard_file codec) m.local_list ++ drop (length m.local_list) files
      else files
