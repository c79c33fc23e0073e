-- ===== src/Snapshot/Frames.antt =====
-- The frames of a snapshot file: one is read whole, however the buffer cuts it, or not at all.
use trunker.Base.{
  ℕ, zero, suc, ◌+◌, ◌-◌, ◌≤◌, ◌<◌, ◌≡◌, refl, sym, ap, ◌∙◌, ◌⊎◌, inl, inr, true, false, ◌++◌,
  arith, ltb, ◌==◌, ltb→lt, Bool-cases, length, take, drop, take-append, length-take, length-drop,
}
use trunker.Base.Bytes.{Bytes}
use trunker.Snapshot.{Stop, read_failed, panic, Filled, fill, read_frame}
use trunker.Snapshot.Input.{
  Reader, IsReader, chunk, chunk_bounds, chunk_all, read-Reads, read-Reads_short, read_at_end,
  take-drop, drop-drop,
}

-- The data and what is left of the file.
pub record Gets (frame rest : Bytes) (got : Filled ⊎ Stop) : Type 0 where
  pub filled : Filled
  pub got_eq : got ≡ inl filled
  pub data_eq : filled.data_read ≡ frame
  pub rest_eq : filled.reader.rest ≡ rest
  pub reader-IsReader : IsReader filled.reader

-- The second read gets all that the first has left.
fill-Gets :
    (first : Bytes) (remain : ℕ) (f : Filled)
    → IsReader f.reader
    → f.reader.buffered ≡ 0
    → 0 < remain
    → remain ≤ 4096
    → remain ≤ length f.reader.rest
    → Gets
        (first ++ take remain f.reader.rest)
        (drop remain f.reader.rest)
        (fill (remain + 1) first remain f)
unfolding fill
fill-Gets first remain f h b p w l =
    let e : remain + 1 ≡ suc (suc (remain - 1)) = omega arith in
    let no : (remain == 0) ≡ false = ground arith in
    let c = chunk_all remain f.reader b w l in
    let a = read-Reads remain f.reader h p (omega arith) in
    let got = take (chunk remain f.reader) f.reader.rest in
    let lg : length got ≡ remain = rw c (length-take remain f.reader.rest ∙ omega arith) in
    let done : (remain - length got == 0) ≡ true = rw lg (ground arith) in
    let ramin = got ++ drop (length got) f.ramin in
    record {
      filled = record { data_read = first ++ take remain ramin; ramin = ramin; reader = a.after };
      got_eq = rw (e, no, a.got_eq, done, fill) refl;
      data_eq = ap (◌++◌ first) (
          ap (λ k. take k ramin) (sym lg)
          ∙ (take-append got (drop (length got) f.ramin) ∙ rw c refl));
      rest_eq = a.rest_eq ∙ ap (λ k. drop k f.reader.rest) c;
      reader-IsReader = a.after-IsReader;
    }

-- A file that ends in a frame gives no data.
fill_short :
    (fuel : ℕ) (first : Bytes) (remain : ℕ) (f : Filled)
    → IsReader f.reader
    → remain < fuel
    → length f.reader.rest < remain
    → fill fuel first remain f ≡ inr read_failed
unfolding fill
fill_short zero first remain f h u l = ground arith
fill_short (suc fuel) first remain f h u l = elim (Bool-cases (length f.reader.rest == 0)) [
  | inl e ↦
      let no : (remain == 0) ≡ false = ground arith in
      rw (no, read_at_end remain f.reader (ground arith), fill) refl
  | inr e ↦
      let no : (remain == 0) ≡ false = ground arith in
      let n = chunk remain f.reader in
      let (n_pos, n_want, n_rest) = chunk_bounds remain f.reader h (omega arith) (ground arith) in
      let a = read-Reads remain f.reader h (omega arith) (ground arith) in
      let ln : length (take n f.reader.rest) ≡ n = length-take n f.reader.rest ∙ omega arith in
      let left : length a.after.rest ≡ length f.reader.rest - n =
        ap length a.rest_eq ∙ length-drop n f.reader.rest in
      let got = take n f.reader.rest in
      let ramin = got ++ drop (length got) f.ramin in
      let f' : Filled = record {
        data_read = first ++ take remain ramin;
        ramin = ramin;
        reader = a.after;
      } in
      rw (no, a.got_eq, fill)
        (fill_short fuel first (remain - length got) f' a.after-IsReader (omega arith)
          (omega arith))
]

module _ (capacity size : ℕ) (ramin : Bytes) (r : Reader) (h : IsReader r) where
  pub read_frame_panic : capacity < size → read_frame capacity size ramin r ≡ inr panic
  unfolding read_frame
  read_frame_panic c = ground arith

  pub read_frame-Gets :
      0 < size
      → size ≤ capacity
      → size ≤ 4096
      → size ≤ length r.rest
      → Gets (take size r.rest) (drop size r.rest) (read_frame capacity size ramin r)
  unfolding read_frame
  read_frame-Gets p c w l =
      let some_left : 0 < length r.rest = omega arith in
      let a = read-Reads size r h p some_left in
      let n = chunk size r in
      let (n_pos, n_want, n_rest) = chunk_bounds size r h p (omega arith) in
      let fits : ltb capacity size ≡ false = ground arith in
      let ln : length (take n r.rest) ≡ n = length-take n r.rest ∙ omega arith in
      let left : length a.after.rest ≡ length r.rest - n =
        ap length a.rest_eq ∙ length-drop n r.rest in
      let f : Filled = record { data_read = take n r.rest; ramin = ramin; reader = a.after } in
      let loop : read_frame capacity size ramin r
          ≡ fill (size - n + 1) (take n r.rest) (size - n) f =
        rw (fits, a.got_eq, ln, read_frame) refl in
      elim (Bool-cases (ltb n size)) [
        | inl e ↦
            let whole : n + (size - n) ≡ size = omega (arith, ltb→lt n size e) in
            let g =
              fill-Gets (take n r.rest) (size - n) f a.after-IsReader
                (read-Reads_short size r h p some_left (ltb→lt n size e))
                (omega (arith, ltb→lt n size e)) (omega arith) (omega arith) in
            record {
              filled = g.filled;
              got_eq = loop ∙ g.got_eq;
              data_eq =
                  g.data_eq
                  ∙ (ap (λ t. take n r.rest ++ take (size - n) t) a.rest_eq
                      ∙ (take-drop n (size - n) r.rest ∙ ap (λ k. take k r.rest) whole));
              rest_eq =
                  g.rest_eq
                  ∙ (ap (drop (size - n)) a.rest_eq
                      ∙ (drop-drop n (size - n) r.rest ∙ ap (λ k. drop k r.rest) whole));
              reader-IsReader = g.reader-IsReader;
            }
        | inr e ↦
            let all : n ≡ size = ground arith in
            let none_left : size - n + 1 ≡ suc zero = omega arith in
            let no_more : size - n ≡ zero = omega arith in
            record {
              filled = f;
              got_eq = loop ∙ rw (none_left, no_more, fill) refl;
              data_eq = ap (λ k. take k r.rest) all;
              rest_eq = a.rest_eq ∙ ap (λ k. drop k r.rest) all;
              reader-IsReader = a.after-IsReader;
            }
      ]

  pub read_frame_short :
      size ≤ capacity → length r.rest < size → read_frame capacity size ramin r ≡ inr read_failed
  unfolding read_frame
  read_frame_short c l = elim (Bool-cases (length r.rest == 0)) [
    | inl e ↦
        let fits : ltb capacity size ≡ false = ground arith in
        rw (fits, read_at_end size r (ground arith), read_frame) refl
    | inr e ↦
        let fits : ltb capacity size ≡ false = ground arith in
        let n = chunk size r in
        let (n_pos, n_want, n_rest) = chunk_bounds size r h (omega arith) (ground arith) in
        let a = read-Reads size r h (omega arith) (ground arith) in
        let ln : length (take n r.rest) ≡ n = length-take n r.rest ∙ omega arith in
        let left : length a.after.rest ≡ length r.rest - n =
          ap length a.rest_eq ∙ length-drop n r.rest in
        let f : Filled = record { data_read = take n r.rest; ramin = ramin; reader = a.after } in
        rw (fits, a.got_eq, read_frame)
          (fill_short (size - length (take n r.rest) + 1) (take n r.rest)
            (size - length (take n r.rest)) f a.after-IsReader (omega arith) (omega arith))
  ]
