-- ===== src/Snapshot/RoundTrip.antt =====
-- LoadFromPersist on the file of a shard: what the whole file gives, and what a cut one does.
use trunker.Base.{
  ℕ, zero, suc, ◌+◌, ◌-◌, ◌≤◌, ◌<◌, min, ◌≡◌, refl, sym, ap, ◌∙◌, inl, inr, List, [], ◌∷◌, ◌++◌,
  arith, ltb, leb, leb→le, Bool-cases, length, take, replicate, All, length-append, length-take,
}
use trunker.Base.Bytes.{Bytes}
use trunker.Base.Little.{put_le, length-put_le}
use trunker.Config.{Config}
use trunker.Mapx.{SyncStringMap}
use trunker.Peer.{Peer}
use trunker.Ban.IpFilter.{IpFilter}
use trunker.Ban.Item.{Bloom}
use trunker.Local.Root.{InfoHashRoot}
use trunker.Mux.{MuxLocalManager}
use trunker.Snapshot.{
  Store, Codec, Stop, end_of_file, read_failed, next_store, load_store, load_loop, load_file,
}
use trunker.Snapshot.Input.{Reader, new_reader, IsReader}
use trunker.Snapshot.Loaded.{
  received, IsCodec, IsStorable, frame_of, frame_of_eq, frames, whole_frames, take-append_ge,
  take-append_lt, Finds, next_store_end, next_store-Finds, next_store_cut,
}

module _ {P : SyncStringMap Peer} {R : SyncStringMap (InfoHashRoot P)} {B : Bloom} {F : IpFilter}
    (codec : Codec) (capacity : ℕ) (uint64 : ℕ → ℕ) (cfg : Config) (now : ℕ) where
  -- The stores are loaded one after the other, as they come out of the decoder.
  unfoldable pub load_all : List Store → MuxLocalManager P R B F → MuxLocalManager P R B F
  unfolding received load_store
  load_all [] m = m
  load_all (s ∷ ss) m = load_all ss (load_store codec capacity uint64 cfg now (received codec s) m)

module _ (codec : Codec) (laws : IsCodec codec) (capacity : ℕ) (small : capacity ≤ 4096) where
  -- The reader stands before a frame and what follows it.
  front :
      (s : Store) (t : IsStorable codec capacity s) (end : Bytes) (ramin : Bytes) (r : Reader)
      → IsReader r
      → r.rest ≡ frame_of codec s ++ end
      → Finds codec capacity small (received codec s) end (next_store codec capacity ramin r)
  unfolding put_le
  front s t end ramin r h e =
      next_store-Finds codec capacity small ramin r h t.frame (t.frame ++ end)
        (e ∙ ap (λ b. b ++ end) (frame_of_eq codec capacity small s t)) t.frame_pos t.frame_le
        (received codec s) t.raw end refl
        (laws.decompress-compress 400 t.raw t.frame t.compress_eq t.raw_le)
        (laws.decode-encode s t.raw t.encode_eq)

  length-frame_of : (s : Store) (t : IsStorable codec capacity s) → 4 < length (frame_of codec s)
  length-frame_of s t =
      rw
        (
          frame_of_eq codec capacity small s t,
          length-append (put_le 4 (length t.frame)) t.frame,
          length-put_le 4 (length t.frame),
        )
        (omega (arith, t.frame_pos))

  -- The reader stands before the front part of a frame, where the file was cut.
  front_cut :
      (s : Store) (t : IsStorable codec capacity s) (k : ℕ) (ramin : Bytes) (r : Reader)
      → IsReader r
      → r.rest ≡ take k (frame_of codec s)
      → k < length (frame_of codec s)
      → (why : Stop) × (next_store codec capacity ramin r ≡ inr why)
  unfolding put_le
  front_cut s t k ramin r h e l =
      let whole = frame_of_eq codec capacity small s t in
      let head = put_le 4 (length t.frame) in
      let size : length (frame_of codec s) ≡ 4 + length t.frame =
        ap length whole
        ∙ (length-append head t.frame
            ∙ ap (λ n. n + length t.frame) (length-put_le 4 (length t.frame))) in
      let few : length r.rest ≡ min k (4 + length t.frame) =
        ap length e ∙ (length-take k (frame_of codec s) ∙ ap (min k) size) in
      elim (Bool-cases (ltb k 4)) [
        | inl b ↦ (end_of_file, next_store_end codec capacity small ramin r h (ground arith))
        | inr b ↦
            let at : r.rest ≡ head ++ take (k - 4) t.frame =
              e ∙ (ap (take k) whole ∙ take-append_ge k head t.frame (ground arith)) in
            (
              read_failed,
              next_store_cut codec capacity small ramin r h t.frame (take (k - 4) t.frame) at
                  t.frame_pos t.frame_le (rw (length-take (k - 4) t.frame) (ground arith)),
            )
      ]

module _ {P : SyncStringMap Peer} {R : SyncStringMap (InfoHashRoot P)} {B : Bloom} {F : IpFilter}
    (codec : Codec) (laws : IsCodec codec) (capacity : ℕ) (small : capacity ≤ 4096) (uint64 : ℕ → ℕ)
    (cfg : Config) (now : ℕ) where
  pub load_loop_step :
      (fuel : ℕ) (s : Store) (end ramin : Bytes) (r : Reader) (m : MuxLocalManager P R B F)
      (f : Finds codec capacity small s end (next_store codec capacity ramin r))
      → load_loop codec capacity uint64 cfg now (suc fuel) ramin r m
        ≡ load_loop codec capacity uint64 cfg now fuel f.ramin f.reader
            (load_store codec capacity uint64 cfg now s m)
  unfolding load_loop
  load_loop_step fuel s end ramin r m f = rw (f.got_eq, load_loop) refl

  load_loop_stop :
      (fuel : ℕ) (why : Stop) (ramin : Bytes) (r : Reader) (m : MuxLocalManager P R B F)
      → next_store codec capacity ramin r ≡ inr why
      → load_loop codec capacity uint64 cfg now (suc fuel) ramin r m ≡ (m, why)
  unfolding load_loop
  load_loop_stop fuel why ramin r m e = rw (e, load_loop) refl

  load_loop-frames :
      (stores : List Store) (fuel : ℕ) (ramin : Bytes) (r : Reader) (m : MuxLocalManager P R B F)
      → All (IsStorable codec capacity) stores
      → IsReader r
      → r.rest ≡ frames codec stores
      → length (frames codec stores) < fuel
      → load_loop codec capacity uint64 cfg now fuel ramin r m
        ≡ (load_all codec capacity uint64 cfg now stores m, end_of_file)
  unfolding frames load_all
  load_loop-frames stores zero ramin r m all h e l = ground arith
  load_loop-frames [] (suc fuel) ramin r m all h e l =
      load_loop_stop fuel end_of_file ramin r m
        (next_store_end codec capacity small ramin r h (rw e (omega arith)))
  load_loop-frames (s ∷ ss) (suc fuel) ramin r m (t, ts) h e l =
      let f = front codec laws capacity small s t (frames codec ss) ramin r h e in
      let long = length-frame_of codec laws capacity small s t in
      let total = length-append (frame_of codec s) (frames codec ss) in
      load_loop_step fuel (received codec s) (frames codec ss) ramin r m f
      ∙ load_loop-frames ss fuel f.ramin f.reader
          (load_store codec capacity uint64 cfg now (received codec s) m) ts f.reader-IsReader
          f.rest_eq (omega arith)

  load_loop_cut :
      (stores : List Store) (k fuel : ℕ) (ramin : Bytes) (r : Reader) (m : MuxLocalManager P R B F)
      → All (IsStorable codec capacity) stores
      → IsReader r
      → r.rest ≡ take k (frames codec stores)
      → length r.rest < fuel
      → (load_loop codec capacity uint64 cfg now fuel ramin r m).0
        ≡ load_all codec capacity uint64 cfg now (take (whole_frames codec k stores) stores) m
  unfolding frames load_all whole_frames
  load_loop_cut stores k zero ramin r m all h e l = ground arith
  load_loop_cut [] k (suc fuel) ramin r m all h e l =
      ap (λ x. x.0)
        (load_loop_stop fuel end_of_file ramin r m
          (next_store_end codec capacity small ramin r h (rw (e, length-take k []) (omega arith))))
  load_loop_cut (s ∷ ss) k (suc fuel) ramin r m (t, ts) h e l =
      let end = frames codec ss in
      let size = length (frame_of codec s) in
      let long = length-frame_of codec laws capacity small s t in
      elim (Bool-cases (leb size k)) [
        | inl b ↦
            let at : r.rest ≡ frame_of codec s ++ take (k - size) end =
              e ∙ take-append_ge k (frame_of codec s) end (leb→le size k b) in
            let f = front codec laws capacity small s t (take (k - size) end) ramin r h at in
            let total : length r.rest ≡ size + length f.reader.rest =
              ap length at
              ∙ (length-append (frame_of codec s) (take (k - size) end)
                  ∙ ap (λ b. size + length b) (sym f.rest_eq)) in
            let ih =
              load_loop_cut ss (k - size) fuel f.ramin f.reader
                (load_store codec capacity uint64 cfg now (received codec s) m) ts f.reader-IsReader
                f.rest_eq (omega arith) in
            ap (λ x. x.0) (load_loop_step fuel (received codec s) (take (k - size) end) ramin r m f)
            ∙ (ih ∙ rw (b, whole_frames) refl)
        | inr b ↦
            let (why, stops) =
              front_cut codec laws capacity small s t k ramin r h
                (e ∙ take-append_lt k (frame_of codec s) end (ground arith)) (ground arith) in
            ap (λ x. x.0) (load_loop_stop fuel why ramin r m stops) ∙ rw (b, whole_frames) refl
      ]

  pub load_file-frames :
      (stores : List Store) (m : MuxLocalManager P R B F)
      → All (IsStorable codec capacity) stores
      → load_file codec capacity uint64 cfg now (frames codec stores) m
        ≡ (load_all codec capacity uint64 cfg now stores m, end_of_file)
  unfolding load_file
  load_file-frames stores m all =
      load_loop-frames stores (length (frames codec stores) + 1) (replicate capacity 0)
        (new_reader (frames codec stores)) m all (omega arith) refl (omega arith)

  pub load_file_cut :
      (stores : List Store) (k : ℕ) (m : MuxLocalManager P R B F)
      → All (IsStorable codec capacity) stores
      → (load_file codec capacity uint64 cfg now (take k (frames codec stores)) m).0
        ≡ load_all codec capacity uint64 cfg now (take (whole_frames codec k stores) stores) m
  unfolding load_file
  load_file_cut stores k m all =
      let file = take k (frames codec stores) in
      load_loop_cut stores k (length file + 1) (replicate capacity 0) (new_reader file) m all
        (omega arith) refl (omega arith)
