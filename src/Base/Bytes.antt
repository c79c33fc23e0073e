-- ===== src/Base/Bytes.antt =====
-- Go strings and byte slices are lists of bytes.
use Prim.Native.Char.{code}
use Prim.Native.String.{String}
use Prim.Native.Nat.{ℕ, zero, suc, ◌+◌, ◌-◌, ◌*◌, ◌/◌, ◌%◌, ◌^◌, ◌<◌}
use mathlib.Core.Path.{◌≡◌, refl, ap, ◌∙◌}
use mathlib.Core.Logic.{◌↔◌}
use mathlib.Core.Bool.{Bool, true, false, ◌&&◌}
use mathlib.Core.List.{List, [], ◌∷◌, ◌++◌}
use native.Mathlib.Omega.{arith}
use native.Mathlib.Nat.{pow-suc, div-add-mod, mod-eq_of_lt, div-div-eq-div-mul}
use trunker.Base.Tests.{◌==◌}
use trunker.Base.Lists.{length, take, drop, take-append}

abbrev pub Bytes : Type 0
Bytes = List ℕ

abbrev pub IsByte : ℕ → Type 0
IsByte b = b < 256

-- The bytes of an ASCII literal of the source.
abbrev pub codes : String → Bytes
codes String.[] = []
codes (String.◌∷◌ c s) = code c ∷ codes s

-- `==` on Go strings.
unfoldable pub eq_bytes : Bytes → Bytes → Bool
eq_bytes [] [] = true
eq_bytes (x ∷ a) (y ∷ b) = (x == y) && eq_bytes a b
eq_bytes _ _ = false

pub eq_bytes_iff : (a b : Bytes) → (eq_bytes a b ≡ true) ↔ (a ≡ b)
unfolding eq_bytes
eq_bytes_iff (x ∷ a) (y ∷ b) = ground (arith, eq_bytes_iff a b)
eq_bytes_iff _ _ = ground arith

pub eq_bytes_refl : (a : Bytes) → eq_bytes a a ≡ true
eq_bytes_refl a = (eq_bytes_iff a a).1 refl

-- `binary.BigEndian.PutUint16`, `PutUint32` and `PutUint64` for n = 2, 4 and 8: the low n bytes of
-- `v`, the highest first.
unfoldable pub put_be : ℕ → ℕ → Bytes
put_be zero v = []
put_be (suc n) v = v / 256 ^ n % 256 ∷ put_be n v

-- `binary.BigEndian.Uint16`, `Uint32` and `Uint64` of a slice of that length.
unfoldable pub be_onto : ℕ → Bytes → ℕ
be_onto acc [] = acc
be_onto acc (b ∷ bs) = be_onto (acc * 256 + b) bs

unfoldable pub get_be : Bytes → ℕ
unfolding be_onto
get_be bs = be_onto 0 bs

-- `buf[a:b]`.
abbrev pub slice : ℕ → ℕ → Bytes → Bytes
slice a b buf = take (b - a) (drop a buf)

be_onto-append : (acc : ℕ) (xs ys : Bytes) → be_onto acc (xs ++ ys) ≡ be_onto (be_onto acc xs) ys
unfolding be_onto
be_onto-append acc [] ys = refl
be_onto-append acc (x ∷ xs) ys = be_onto-append (acc * 256 + x) xs ys

-- The rest by 256 digits of size p: the digit above p, and the rest by p.
mod-mul_digit : (p v : ℕ) → v % (p * 256) ≡ v / p % 256 * p + v % p
mod-mul_digit p v =
    let whole : p * 256 * (v / p / 256) + v % (p * 256) ≡ v =
      ap (λ t. p * 256 * t + v % (p * 256)) (div-div-eq-div-mul v p 256)
      ∙ div-add-mod v (p * 256) in
    let part : p * (256 * (v / p / 256) + v / p % 256) + v % p ≡ v =
      ap (λ q. p * q + v % p) (div-add-mod (v / p) 256) ∙ div-add-mod v p in
    omega arith

be_onto-put_be : (n acc v : ℕ) → be_onto acc (put_be n v) ≡ acc * 256 ^ n + v % 256 ^ n
unfolding be_onto put_be
be_onto-put_be zero acc v = omega arith
be_onto-put_be (suc n) acc v =
    be_onto-put_be n (acc * 256 + v / 256 ^ n % 256) v
    ∙ rw (pow-suc 256 n, mod-mul_digit (256 ^ n) v) (omega arith)

pub get_be-put_be_mod : (n v : ℕ) → get_be (put_be n v) ≡ v % 256 ^ n
unfolding get_be
get_be-put_be_mod n v = be_onto-put_be n 0 v ∙ omega arith

-- Reading what was written, for a value that fits.
pub get_be-put_be : (n v : ℕ) → v < 256 ^ n → get_be (put_be n v) ≡ v
unfolding get_be
get_be-put_be n v h = be_onto-put_be n 0 v ∙ (omega arith ∙ mod-eq_of_lt h)

pub length-put_be : (n v : ℕ) → length (put_be n v) ≡ n
unfolding put_be
length-put_be zero v = refl
length-put_be (suc n) v = ap suc (length-put_be n v)

cong_slice : {m n : ℕ} {xs ys : Bytes} → m ≡ n → xs ≡ ys → take m xs ≡ take n ys
cong_slice h e = rw (h, e) refl

pub drop_skip : (a : ℕ) (xs ys : Bytes) → drop (length xs + a) (xs ++ ys) ≡ drop a ys
drop_skip a [] ys = ap (λ m. drop m ys) (omega arith)
drop_skip a (x ∷ xs) ys =
    let e : length (x ∷ xs) + a ≡ suc (length xs + a) = omega arith in rw e (drop_skip a xs ys)

pub slice_skip :
    (n a b : ℕ) (xs ys : Bytes) → length xs ≡ n → slice (n + a) (n + b) (xs ++ ys) ≡ slice a b ys
slice_skip n a b xs ys h = rw (← h) (cong_slice (omega arith) (drop_skip a xs ys))

pub slice_here : (n : ℕ) (xs ys : Bytes) → length xs ≡ n → slice 0 n (xs ++ ys) ≡ xs
slice_here n xs ys h = rw (← h) (cong_slice (omega arith) refl ∙ take-append xs ys)
