-- ===== src/Ban/Hex.antt =====
-- `hex.EncodeToString` and `hex.DecodeString` of Go's encoding/hex.
use trunker.Base.{
  ℕ, ◌+◌, ◌-◌, ◌*◌, ◌/◌, ◌%◌, ◌<◌, ◌≡◌, refl, ◌&&◌, Option, none, some, [], ◌∷◌, arith, ltb, leb,
  if◌then◌else◌, All,
}
use trunker.Base.Bytes.{Bytes, IsByte}

unfoldable pub hex_digit : ℕ → ℕ
hex_digit n = if ltb n 10 then 48 + n else 87 + n

unfoldable pub hex_encode : Bytes → Bytes
unfolding hex_digit
hex_encode [] = []
hex_encode (b ∷ bs) = hex_digit (b / 16) ∷ hex_digit (b % 16) ∷ hex_encode bs

unfoldable pub hex_value : ℕ → Option ℕ
hex_value c =
    if leb 48 c && leb c 57
    then some (c - 48)
    else if leb 97 c && leb c 102
    then some (c - 87)
    else if leb 65 c && leb c 70
    then some (c - 55)
    else none

-- None is the error.
unfoldable pub hex_decode : Bytes → Option Bytes
unfolding hex_value
hex_decode [] = some []
hex_decode (c ∷ []) = none
hex_decode (c ∷ d ∷ rest) =
    let decoded = hex_decode rest in
    elim (hex_value c) [
      | none ↦ none
      | some a ↦ elim (hex_value d) [
        | none ↦ none
        | some b ↦ elim decoded [ none ↦ none | some bs ↦ some ((a * 16 + b) ∷ bs) ]
      ]
    ]

pub hex_value-hex_digit : (n : ℕ) → n < 16 → hex_value (hex_digit n) ≡ some n
unfolding hex_value hex_digit
hex_value-hex_digit n h = ground (arith, h)

-- What was written is read.
pub hex_decode-hex_encode : (bs : Bytes) → All IsByte bs → hex_decode (hex_encode bs) ≡ some bs
unfolding hex_encode hex_decode
hex_decode-hex_encode [] h = refl
hex_decode-hex_encode (b ∷ bs) (h, hs) = ground (
  arith,
  h,
  hex_value-hex_digit (b / 16) (omega (arith, h)),
  hex_value-hex_digit (b % 16) (omega arith),
  hex_decode-hex_encode bs hs,
)
