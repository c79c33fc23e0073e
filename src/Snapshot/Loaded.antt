-- ===== src/Snapshot/Loaded.antt =====
-- Reading back what StoreToPersist wrote, from a whole file and from a file that was cut.
use trunker.Base.{
  ℕ, zero, suc, ◌-◌, ◌≤◌, ◌<◌, ◌≡◌, refl, ap, ◌∙◌, ◌⊎◌, inl, inr, false, none, some, List, [], ◌∷◌,
  ◌++◌, arith, leb, ◌==◌, if◌then◌else◌, length, take, drop, length-append, take-append,
  drop-append,
}
use trunker.Base.Bytes.{Bytes}
use trunker.Base.Little.{put_le, get_le, get_le-put_le, length-put_le}
use trunker.Rpc.{received_peer}
use trunker.Snapshot.{
  Store, Codec, Stop, end_of_file, read_failed, Filled, read_frame, decode_frame, next_store,
}
use trunker.Snapshot.Input.{Reader, IsReader, read_full, read_full-Reads, read_full_short}
use trunker.Snapshot.Frames.{read_frame-Gets, read_frame_short}

-- A Store behind the encoding, which does not keep apart missing and empty addresses.
unfoldable pub received : Codec → Store → Store
unfolding received_peer
received codec s = record s { peer = received_peer codec.empty_bytes s.peer }

-- What the two libraries document of themselves.
pub record IsCodec (codec : Codec) : Type 0 where
  pub decode-encode :
      (s : Store) (raw : Bytes)
      → codec.encode s ≡ some raw
      → codec.decode raw ≡ some (received codec s)
  pub decompress-compress :
      (n : ℕ) (raw c : Bytes)
      → codec.compress raw ≡ some c
      → length raw ≤ n
      → codec.decompress n c ≡ some raw

-- A Store that fits the buffers it is read into.
pub record IsStorable (codec : Codec) (capacity : ℕ) (s : Store) : Type 0 where
  pub raw : Bytes
  pub frame : Bytes
  pub encode_eq : codec.encode s ≡ some raw
  pub compress_eq : codec.compress raw ≡ some frame
  pub raw_le : length raw ≤ 400
  pub frame_pos : 0 < length frame
  pub frame_le : length frame ≤ capacity

abbrev pub bytes_of : Bytes → Bytes
bytes_of c = put_le 4 (length c) ++ c

-- The bytes that a Store takes in a file, and those of several.
unfoldable pub frame_of : Codec → Store → Bytes
frame_of codec s = elim (codec.encode s) [
  | none ↦ []
  | some raw ↦ elim (codec.compress raw) [ none ↦ [] | some c ↦ bytes_of c ]
]

unfoldable pub frames : Codec → List Store → Bytes
frames codec [] = []
frames codec (s ∷ ss) = frame_of codec s ++ frames codec ss

-- How many whole frames the first k bytes hold.
unfoldable pub whole_frames : Codec → ℕ → List Store → ℕ
whole_frames codec k [] = 0
whole_frames codec k (s ∷ ss) =
    let rest = whole_frames codec (k - length (frame_of codec s)) ss in
    if leb (length (frame_of codec s)) k then suc rest else 0

pub take-append_ge :
    (k : ℕ) (xs ys : Bytes) → length xs ≤ k → take k (xs ++ ys) ≡ xs ++ take (k - length xs) ys
take-append_ge k [] ys h = ap (λ n. take n ys) (omega arith)
take-append_ge zero (x ∷ xs) ys h = ground arith
take-append_ge (suc k) (x ∷ xs) ys h =
    let e : suc k - suc (length xs) ≡ k - length xs = omega arith in
    rw e (ap (◌∷◌ x) (take-append_ge k xs ys (omega arith)))

pub take-append_lt : (k : ℕ) (xs ys : Bytes) → k ≤ length xs → take k (xs ++ ys) ≡ take k xs
take-append_lt zero xs ys h = refl
take-append_lt (suc k) [] ys h = ground arith
take-append_lt (suc k) (x ∷ xs) ys h = ap (◌∷◌ x) (take-append_lt k xs ys (omega arith))

module _ (codec : Codec) (capacity : ℕ) (small : capacity ≤ 4096) where
  pub frame_of_eq :
      (s : Store) (t : IsStorable codec capacity s) → frame_of codec s ≡ bytes_of t.frame
  unfolding frame_of
  frame_of_eq s t = rw (t.encode_eq, t.compress_eq, frame_of) refl

  next_store_step :
      (ramin : Bytes) (r : Reader) (head : Bytes) (r' : Reader) (f : Filled) (raw : Bytes)
      (s : Store)
      → read_full 4 4 r ≡ some (head, r')
      → (get_le head == 0) ≡ false
      → read_frame capacity (get_le head) ramin r' ≡ inl f
      → codec.decompress 400 f.data_read ≡ some raw
      → codec.decode raw ≡ some s
      → next_store codec capacity ramin r ≡ inl (s, f.ramin, f.reader)
  unfolding next_store decode_frame
  next_store_step ramin r head r' f raw s e0 e1 e2 e3 e4 = rw (e0, e1, e2, e3, e4, next_store) refl

  next_store_fails :
      (ramin : Bytes) (r : Reader) (head : Bytes) (r' : Reader)
      → read_full 4 4 r ≡ some (head, r')
      → (get_le head == 0) ≡ false
      → read_frame capacity (get_le head) ramin r' ≡ inr read_failed
      → next_store codec capacity ramin r ≡ inr read_failed
  unfolding next_store
  next_store_fails ramin r head r' e0 e1 e2 = rw (e0, e1, e2, next_store) refl

  pub next_store_end :
      (ramin : Bytes) (r : Reader)
      → IsReader r
      → length r.rest < 4
      → next_store codec capacity ramin r ≡ inr end_of_file
  unfolding next_store
  next_store_end ramin r h l = rw (read_full_short 4 4 r h l, next_store) refl

  -- The next Store, and a reader behind its frame.
  pub record Finds (s : Store) (tail : Bytes) (got : (Store × Bytes × Reader) ⊎ Stop) : Type 0 where
    pub ramin : Bytes
    pub reader : Reader
    pub got_eq : got ≡ inl (s, ramin, reader)
    pub rest_eq : reader.rest ≡ tail
    pub reader-IsReader : IsReader reader

  module _ (ramin : Bytes) (r : Reader) (h : IsReader r) (c tail : Bytes)
      (at : r.rest ≡ put_le 4 (length c) ++ tail) (pos : 0 < length c)
      (fits : length c ≤ capacity) where
    head_eq : get_le (take 4 r.rest) ≡ length c
    unfolding put_le
    head_eq = ap (λ t. get_le (take 4 t)) at ∙ get_le-put_le 4 (length c) (omega arith)

    behind_eq : drop 4 r.rest ≡ tail
    unfolding put_le
    behind_eq = ap (drop 4) at

    four : 4 ≤ length r.rest
    four =
        rw (at, length-append (put_le 4 (length c)) tail, length-put_le 4 (length c)) (omega arith)

    nonzero : (get_le (take 4 r.rest) == 0) ≡ false
    nonzero = ap (λ n. n == 0) head_eq ∙ ground arith

    pub next_store-Finds :
        (s : Store) (raw : Bytes) (end : Bytes)
        → tail ≡ c ++ end
        → codec.decompress 400 c ≡ some raw
        → codec.decode raw ≡ some s
        → Finds s end (next_store codec capacity ramin r)
    next_store-Finds s raw end split e_raw e_s =
        let a = read_full-Reads 4 4 r h (omega arith) four in
        let rest : a.after.rest ≡ c ++ end = a.rest_eq ∙ (behind_eq ∙ split) in
        let long : length c ≤ length a.after.rest = rw (rest, length-append c end) (omega arith) in
        let g =
          read_frame-Gets capacity (length c) ramin a.after a.after-IsReader pos fits (omega arith)
            long in
        let same : g.filled.data_read ≡ c =
          g.data_eq ∙ (ap (take (length c)) rest ∙ take-append c end) in
        record {
          ramin = g.filled.ramin;
          reader = g.filled.reader;
          got_eq =
              next_store_step ramin r (take 4 r.rest) a.after g.filled raw s a.got_eq nonzero
                (ap (λ n. read_frame capacity n ramin a.after) head_eq ∙ g.got_eq)
                (ap (codec.decompress 400) same ∙ e_raw) e_s;
          rest_eq = g.rest_eq ∙ (ap (drop (length c)) rest ∙ drop-append c end);
          reader-IsReader = g.reader-IsReader;
        }

    pub next_store_cut :
        length tail < length c → next_store codec capacity ramin r ≡ inr read_failed
    next_store_cut short =
        let a = read_full-Reads 4 4 r h (omega arith) four in
        let few : length a.after.rest < length c = rw (a.rest_eq ∙ behind_eq) short in
        next_store_fails ramin r (take 4 r.rest) a.after a.got_eq nonzero (
          ap (λ n. read_frame capacity n ramin a.after) head_eq
          ∙ read_frame_short capacity (length c) ramin a.after a.after-IsReader fits few)
