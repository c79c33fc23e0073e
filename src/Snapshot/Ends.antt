-- ===== src/Snapshot/Ends.antt =====
-- The loops of LoadFromPersist end on every file: a read gives a byte or is at the end.
use trunker.Base.{
  ℕ, zero, suc, ◌+◌, ◌-◌, ◌≤◌, ◌<◌, ◌≡◌, ap, ◌∙◌, ◌≢◌, ◌⊎◌, inl, inr, ◌++◌, arith, ltb, ◌==◌,
  ltb→lt, Bool-cases, Option-cases, length, take, drop, replicate, length-take, length-drop,
}
use trunker.Base.Bytes.{Bytes}
use trunker.Base.Little.{get_le}
use trunker.Config.{Config}
use trunker.Mapx.{SyncStringMap}
use trunker.Peer.{Peer}
use trunker.Ban.IpFilter.{IpFilter}
use trunker.Ban.Item.{Bloom}
use trunker.Local.Root.{InfoHashRoot}
use trunker.Mux.{MuxLocalManager}
use trunker.Snapshot.{
  Store, Codec, Stop, out_of_fuel, Filled, fill, read_frame, decode_frame, next_store, load_store,
  load_loop, load_file,
}
use trunker.Snapshot.Input.{
  Reader, new_reader, IsReader, chunk, chunk_bounds, read-Reads, read_at_end, read_full-Reads,
  read_full_short,
}

-- A part of a round that ends leaves no more than it was given, or stops for a reason of its own.
abbrev Ends : ℕ → Filled ⊎ Stop → Type 0
Ends n (inl f) = IsReader f.reader × (length f.reader.rest ≤ n)
Ends n (inr why) = why ≢ out_of_fuel

fill-Ends :
    (fuel : ℕ) (first : Bytes) (remain n : ℕ) (f : Filled)
    → IsReader f.reader
    → remain < fuel
    → length f.reader.rest ≤ n
    → Ends n (fill fuel first remain f)
unfolding fill
fill-Ends zero first remain n f h u l = ground arith
fill-Ends (suc fuel) first remain n f h u l = elim (Bool-cases (remain == 0)) [
  | inl e ↦ rw (e, fill) (h, l)
  | inr e ↦ elim (Bool-cases (length f.reader.rest == 0)) [
    | inl z ↦ rw (e, read_at_end remain f.reader (ground arith), fill) (λ p. ground (arith, p))
    | inr z ↦
        let (n_pos, n_want, n_rest) =
          chunk_bounds remain f.reader h (ground arith) (ground arith) in
        let a = read-Reads remain f.reader h (ground arith) (ground arith) in
        let c = chunk remain f.reader in
        let got = take c f.reader.rest in
        let ln : length got ≡ c = length-take c f.reader.rest ∙ omega arith in
        let left : length a.after.rest ≡ length f.reader.rest - c =
          ap length a.rest_eq ∙ length-drop c f.reader.rest in
        let ramin = got ++ drop (length got) f.ramin in
        let f' : Filled = record {
          data_read = first ++ take remain ramin;
          ramin = ramin;
          reader = a.after;
        } in
        rw (e, a.got_eq, fill)
          (fill-Ends fuel first (remain - length got) n f' a.after-IsReader (omega arith)
            (omega arith))
  ]
]

read_frame-Ends :
    (capacity size n : ℕ) (ramin : Bytes) (r : Reader)
    → IsReader r
    → 0 < size
    → length r.rest ≤ n
    → Ends n (read_frame capacity size ramin r)
unfolding read_frame
read_frame-Ends capacity size n ramin r h p l = elim (Bool-cases (ltb capacity size)) [
  | inl e ↦ rw (e, read_frame) (λ q. ground (arith, q))
  | inr e ↦ elim (Bool-cases (length r.rest == 0)) [
    | inl z ↦ rw (e, read_at_end size r (ground arith), read_frame) (λ q. ground (arith, q))
    | inr z ↦
        let (n_pos, n_want, n_rest) = chunk_bounds size r h p (ground arith) in
        let a = read-Reads size r h p (ground arith) in
        let c = chunk size r in
        let left : length a.after.rest ≡ length r.rest - c =
          ap length a.rest_eq ∙ length-drop c r.rest in
        let f : Filled = record { data_read = take c r.rest; ramin = ramin; reader = a.after } in
        rw (e, a.got_eq, read_frame)
          (fill-Ends (size - length (take c r.rest) + 1) (take c r.rest)
            (size - length (take c r.rest)) n f a.after-IsReader (omega arith) (omega arith))
  ]
]

module _ (codec : Codec) (capacity : ℕ) where
  -- A round that gives a Store has read something.
  abbrev Shrinks : ℕ → (Store × Bytes × Reader) ⊎ Stop → Type 0
  Shrinks n (inl (s, ramin, r)) = IsReader r × (length r.rest < n)
  Shrinks n (inr why) = why ≢ out_of_fuel

  decoded-Shrinks :
      (n : ℕ) (f : Filled)
      → IsReader f.reader
      → length f.reader.rest < n
      → Shrinks n (elim (decode_frame codec capacity f.data_read) [
        | inr stop ↦ inr stop
        | inl store ↦ inl (store, f.ramin, f.reader)
      ])
  unfolding decode_frame
  decoded-Shrinks n f h l = elim (Option-cases (codec.decompress 400 f.data_read)) [
    | inl e ↦ rw (e, decode_frame) (λ p. ground (arith, p))
    | inr (raw, e) ↦ elim (Option-cases (codec.decode raw)) [
      | inl d ↦ rw (e, d, decode_frame) (λ p. ground (arith, p))
      | inr (store, d) ↦ rw (e, d, decode_frame) (h, l)
    ]
  ]

  framed-Shrinks :
      (n m : ℕ) (got : Filled ⊎ Stop)
      → Ends m got
      → m < n
      → Shrinks n (elim got [
        | inr stop ↦ inr stop
        | inl f ↦ elim (decode_frame codec capacity f.data_read) [
          | inr stop ↦ inr stop
          | inl store ↦ inl (store, f.ramin, f.reader)
        ]
      ])
  framed-Shrinks n m (inr why) h l = h
  framed-Shrinks n m (inl f) (h, k) l = decoded-Shrinks n f h (omega arith)

  next_store-Shrinks :
      (ramin : Bytes) (r : Reader)
      → IsReader r
      → Shrinks (length r.rest) (next_store codec capacity ramin r)
  unfolding next_store
  next_store-Shrinks ramin r h = elim (Bool-cases (ltb (length r.rest) 4)) [
    | inl e ↦
        rw (read_full_short 4 4 r h (ltb→lt (length r.rest) 4 e), next_store)
          (λ p. ground (arith, p))
    | inr e ↦
        let a = read_full-Reads 4 4 r h (omega arith) (ground arith) in
        let left : length a.after.rest ≡ length r.rest - 4 =
          ap length a.rest_eq ∙ length-drop 4 r.rest in
        let size = get_le (take 4 r.rest) in
        elim (Bool-cases (size == 0)) [
          | inl z ↦ rw (a.got_eq, z, next_store) (λ p. ground (arith, p))
          | inr z ↦
              rw (a.got_eq, z, next_store)
                (framed-Shrinks (length r.rest) (length a.after.rest)
                  (read_frame capacity size ramin a.after)
                  (read_frame-Ends capacity size (length a.after.rest) ramin a.after
                    a.after-IsReader (ground arith) (omega arith))
                  (ground arith))
        ]
  ]

module _ {P : SyncStringMap Peer} {R : SyncStringMap (InfoHashRoot P)} {B : Bloom} {F : IpFilter}
    (codec : Codec) (capacity : ℕ) (uint64 : ℕ → ℕ) (cfg : Config) (now : ℕ) where
  -- The loop goes on with what is left, or it has stopped.
  round_ends :
      (fuel n : ℕ) (m : MuxLocalManager P R B F) (got : (Store × Bytes × Reader) ⊎ Stop)
      → ((ramin : Bytes) (r : Reader) (m' : MuxLocalManager P R B F)
          → IsReader r
          → length r.rest < fuel
          → (load_loop codec capacity uint64 cfg now fuel ramin r m').1 ≢ out_of_fuel)
      → Shrinks codec capacity n got
      → n < suc fuel
      → (elim got as (λ x. MuxLocalManager P R B F × Stop) [
        | inr stop ↦ (m, stop)
        | inl (store, ramin, r) ↦
            load_loop codec capacity uint64 cfg now fuel ramin r
              (load_store codec capacity uint64 cfg now store m)
      ]).1
        ≢ out_of_fuel
  round_ends fuel n m (inr why) ih run l = run
  round_ends fuel n m (inl (store, ramin, r)) ih (h, k) l =
      ih ramin r (load_store codec capacity uint64 cfg now store m) h (omega arith)

  load_loop_ends :
      (fuel : ℕ) (ramin : Bytes) (r : Reader) (m : MuxLocalManager P R B F)
      → IsReader r
      → length r.rest < fuel
      → (load_loop codec capacity uint64 cfg now fuel ramin r m).1 ≢ out_of_fuel
  unfolding load_loop
  load_loop_ends zero ramin r m h l = ground arith
  load_loop_ends (suc fuel) ramin r m h l =
      round_ends fuel (length r.rest) m (next_store codec capacity ramin r) (load_loop_ends fuel)
        (next_store-Shrinks codec capacity ramin r h) l

  -- LoadFromPersist comes to an end on every file, whatever its bytes and whatever the libraries
  -- answer: the length of the file is fuel enough for its loop and for the loop over the parts of a
  -- frame.
  pub load_file_ends :
      (file : Bytes) (m : MuxLocalManager P R B F)
      → (load_file codec capacity uint64 cfg now file m).1 ≢ out_of_fuel
  unfolding load_file
  load_file_ends file m =
      load_loop_ends (length file + 1) (replicate capacity 0) (new_reader file) m (omega arith)
        (omega arith)
