-- ===== src/Http/Bencode/Read.antt =====
-- A reader of the strings that biz/model/fast_bencode.go writes.
use mathlib.Core.List.{append_assoc}
use trunker.Base.{
  ℕ, ◌+◌, ◌-◌, ◌*◌, ◌≡◌, refl, ap, ◌∙◌, true, ◌&&◌, Option, none, some, [], ◌∷◌, ◌++◌, arith, leb,
  ◌==◌, if◌then◌else◌, length, take, drop, All, length-append, take-append, drop-append,
}
use trunker.Base.Bytes.{Bytes}
use trunker.Base.Decimal.{itoa, digits_onto, IsDigit, digits_onto-itoa, itoa-IsDigit}
use trunker.Http.Bencode.{write_string}

-- The digits up to a colon, and what follows it.
unfoldable pub read_length : ℕ → Bytes → Option (ℕ × Bytes)
read_length acc [] = none
read_length acc (c ∷ cs) =
    let rest = read_length (acc * 10 + (c - 48)) cs in
    if c == 58 then some (acc, cs) else if leb 48 c && leb c 57 then rest else none

-- The string of a length, and what follows it.
abbrev cut : Option (ℕ × Bytes) → Option (Bytes × Bytes)
cut none = none
cut (some (n, b)) = if leb n (length b) then some (take n b, drop n b) else none

unfoldable pub read_string : Bytes → Option (Bytes × Bytes)
unfolding read_length
read_string b = cut (read_length 0 b)

read_length-append :
    (acc : ℕ) (ds rest : Bytes)
    → All IsDigit ds
    → read_length acc (ds ++ (58 ∷ rest)) ≡ some (digits_onto acc ds, rest)
unfolding read_length digits_onto
read_length-append acc [] rest h = refl
read_length-append acc (d ∷ ds) rest (h, hs) =
    ground (arith, h, read_length-append (acc * 10 + (d - 48)) ds rest hs)

-- A string that was written is read back, whatever bytes it holds and whatever follows it.
pub read_string-write_string :
    (s rest : Bytes) → read_string (write_string s ++ rest) ≡ some (s, rest)
unfolding read_string write_string
read_string-write_string s rest =
    let e : read_length 0 ((itoa (length s) ++ (58 ∷ s)) ++ rest) ≡ some (length s, s ++ rest) =
      ap (read_length 0) (append_assoc (itoa (length s)) (58 ∷ s) rest)
      ∙ (read_length-append 0 (itoa (length s)) (s ++ rest) (itoa-IsDigit (length s))
          ∙ ap (λ n. some (n, s ++ rest)) (digits_onto-itoa (length s))) in
    ap cut e ∙ all_of_it
  where
    all_of_it : cut (some (length s, s ++ rest)) ≡ some (s, rest)
    all_of_it =
        let fits : leb (length s) (length (s ++ rest)) ≡ true =
          ground (arith, length-append s rest) in
        rw (fits, take-append s rest, drop-append s rest) refl
