-- ===== src/Snapshot/Input.antt =====
-- `bufio.Reader` and `io.ReadFull` of the standard library on a regular file, as far as
-- biz/services/peer/mux_local/persist.go reads its files with them.
use trunker.Base.{
  ℕ, zero, suc, ◌+◌, ◌-◌, ◌≤◌, ◌<◌, min, ◌≡◌, refl, ap, ◌∙◌, inl, inr, true, false, Option, none,
  some, [], ◌∷◌, ◌++◌, arith, leb, ◌==◌, if◌then◌else◌, Bool-cases, length, take, drop, length-take,
  length-drop,
}
use trunker.Base.Bytes.{Bytes}

-- What is left of the file, and how many of these bytes are in the buffer.
pub record Reader : Type 0 where
  pub rest : Bytes
  pub buffered : ℕ

abbrev pub new_reader : Bytes → Reader
new_reader file = record { rest = file; buffered = 0 }

abbrev pub IsReader : Reader → Type 0
IsReader r = r.buffered ≤ length r.rest

-- A read with an empty buffer fills it from the file, or goes past it when it asks for 4096 bytes.
unfoldable pub window : ℕ → Reader → ℕ
window want r =
    if r.buffered == 0
    then min (if leb 4096 want then want else 4096) (length r.rest)
    else r.buffered

-- `Read(p)` for `want` bytes: what is in the buffer, up to that, and none at the end of the file.
unfoldable pub read : ℕ → Reader → Option (Bytes × Reader)
unfolding window
read want r =
    let n = min want (window want r) in
    if length r.rest == 0
    then none
    else some (take n r.rest, record { rest = drop n r.rest; buffered = window want r - n })

-- `io.ReadFull`: at most `fuel` reads.
unfoldable pub read_full : ℕ → ℕ → Reader → Option (Bytes × Reader)
unfolding read
read_full zero want r = if want == 0 then some ([], r) else none
read_full (suc fuel) want r = elim (want == 0) [
  | true ↦ some ([], r)
  | false ↦ elim (read want r) [
    | none ↦ none
    | some (bs, r') ↦ elim (read_full fuel (want - length bs) r') [
      | none ↦ none
      | some (more, r'') ↦ some (bs ++ more, r'')
    ]
  ]
]

-- A read that gives the n bytes at the front.
pub record Reads (n : ℕ) (r : Reader) (got : Option (Bytes × Reader)) : Type 0 where
  pub after : Reader
  pub got_eq : got ≡ some (take n r.rest, after)
  pub rest_eq : after.rest ≡ drop n r.rest
  pub after-IsReader : IsReader after

-- The number of bytes that a read gives.
pub chunk : ℕ → Reader → ℕ
unfolding window
chunk want r = min want (window want r)

pub chunk_bounds :
    (want : ℕ) (r : Reader)
    → IsReader r
    → 0 < want
    → 0 < length r.rest
    → (0 < chunk want r) × (chunk want r ≤ want) × (chunk want r ≤ length r.rest)
unfolding chunk window
chunk_bounds want r h w l = ground arith

pub read-Reads :
    (want : ℕ) (r : Reader)
    → IsReader r
    → 0 < want
    → 0 < length r.rest
    → Reads (chunk want r) r (read want r)
unfolding chunk read window
read-Reads want r h w l =
    let n = chunk want r in
    record {
      after = record { rest = drop n r.rest; buffered = window want r - n };
      got_eq = ground arith;
      rest_eq = refl;
      after-IsReader = rw (length-drop n r.rest) (ground arith);
    }

-- A read that gives less than it could has emptied the buffer.
pub read-Reads_short :
    (want : ℕ) (r : Reader) (h : IsReader r) (w : 0 < want) (l : 0 < length r.rest)
    → chunk want r < want
    → (read-Reads want r h w l).after.buffered ≡ 0
unfolding read-Reads chunk
read-Reads_short want r h w l s = omega arith

-- With an empty buffer a read of at most 4096 bytes gives them all.
pub chunk_all :
    (want : ℕ) (r : Reader)
    → r.buffered ≡ 0
    → want ≤ 4096
    → want ≤ length r.rest
    → chunk want r ≡ want
unfolding chunk window
chunk_all want r h w l = ground arith

pub read_at_end : (want : ℕ) (r : Reader) → length r.rest ≡ 0 → read want r ≡ none
unfolding read
read_at_end want r h = rw h refl

take_nil : (n : ℕ) → ◌≡◌ {A = Bytes} (take n []) []
take_nil zero = refl
take_nil (suc n) = refl

drop_nil : (n : ℕ) → ◌≡◌ {A = Bytes} (drop n []) []
drop_nil zero = refl
drop_nil (suc n) = refl

pub take-drop : (n m : ℕ) (xs : Bytes) → take n xs ++ take m (drop n xs) ≡ take (n + m) xs
take-drop zero m xs = ap (λ k. take k xs) (omega arith)
take-drop (suc n) m [] = rw (take_nil m, take_nil (suc n + m)) refl
take-drop (suc n) m (x ∷ xs) =
    let e : suc n + m ≡ suc (n + m) = omega arith in rw e (ap (◌∷◌ x) (take-drop n m xs))

pub drop-drop : (n m : ℕ) (xs : Bytes) → drop m (drop n xs) ≡ drop (n + m) xs
drop-drop zero m xs = ap (λ k. drop k xs) (omega arith)
drop-drop (suc n) m [] = rw (drop_nil m, drop_nil (suc n + m)) refl
drop-drop (suc n) m (x ∷ xs) =
    let e : suc n + m ≡ suc (n + m) = omega arith in rw e (drop-drop n m xs)

-- One read, and then the rest.
Reads-step :
    (fuel want n : ℕ) (r : Reader) (a : Reads n r (read want r))
    → Reads (want - n) a.after (read_full fuel (want - n) a.after)
    → 0 < want
    → n ≤ want
    → n ≤ length r.rest
    → Reads want r (read_full (suc fuel) want r)
unfolding read_full
Reads-step fuel want n r a ih w nw nr =
    let no : (want == 0) ≡ false = ground arith in
    let whole : n + (want - n) ≡ want = omega arith in
    let ln : length (take n r.rest) ≡ n = length-take n r.rest ∙ omega arith in
    record {
      after = ih.after;
      got_eq =
          rw (no, a.got_eq, ln, ih.got_eq, read_full)
            (ap (λ t. some (t, ih.after))
              (ap (λ t. take n r.rest ++ take (want - n) t) a.rest_eq
                ∙ (take-drop n (want - n) r.rest ∙ ap (λ k. take k r.rest) whole)));
      rest_eq =
          ih.rest_eq
          ∙ (ap (drop (want - n)) a.rest_eq
              ∙ (drop-drop n (want - n) r.rest ∙ ap (λ k. drop k r.rest) whole));
      after-IsReader = ih.after-IsReader;
    }

-- ReadFull gets its bytes whenever the file has them, in whatever pieces the buffer gives.
pub read_full-Reads :
    (fuel want : ℕ) (r : Reader)
    → IsReader r
    → want ≤ fuel
    → want ≤ length r.rest
    → Reads want r (read_full fuel want r)
unfolding read_full
read_full-Reads zero want r h f l =
    let z : want ≡ 0 = omega arith in
    rw z (record { after = r; got_eq = refl; rest_eq = refl; after-IsReader = h })
read_full-Reads (suc fuel) want r h f l = elim (Bool-cases (want == 0)) [
  | inl e ↦
      let z : want ≡ 0 = ground arith in
      rw z (record { after = r; got_eq = refl; rest_eq = refl; after-IsReader = h })
  | inr e ↦
      let w : 0 < want = ground arith in
      let n = chunk want r in
      let (n_pos, n_want, n_rest) = chunk_bounds want r h w (omega arith) in
      let a = read-Reads want r h w (omega arith) in
      let left : length a.after.rest ≡ length r.rest - n =
        ap length a.rest_eq ∙ length-drop n r.rest in
      Reads-step fuel want n r a
        (read_full-Reads fuel (want - n) a.after a.after-IsReader (omega arith) (omega arith)) w
        n_want n_rest
]

pub read_full_short :
    (fuel want : ℕ) (r : Reader) → IsReader r → length r.rest < want → read_full fuel want r ≡ none
unfolding read_full
read_full_short zero want r h l = ground arith
read_full_short (suc fuel) want r h l = elim (Bool-cases (length r.rest == 0)) [
  | inl e ↦
      let no : (want == 0) ≡ false = ground arith in
      rw (no, read_at_end want r (ground arith), read_full) refl
  | inr e ↦
      let n = chunk want r in
      let no : (want == 0) ≡ false = ground arith in
      let (n_pos, n_want, n_rest) = chunk_bounds want r h (omega arith) (ground arith) in
      let a = read-Reads want r h (omega arith) (ground arith) in
      let ln : length (take n r.rest) ≡ n = length-take n r.rest ∙ omega arith in
      let left : length a.after.rest ≡ length r.rest - n =
        ap length a.rest_eq ∙ length-drop n r.rest in
      rw
        (
          no,
          a.got_eq,
          ln,
          read_full_short fuel (want - n) a.after a.after-IsReader (omega arith),
          read_full,
        )
        refl
]
