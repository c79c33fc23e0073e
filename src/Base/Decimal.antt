-- ===== src/Base/Decimal.antt =====
-- Go's `strconv.Itoa` for a number that is not negative, and the reading of such digits.
use trunker.Base.Tests.{ltb, if◌then◌else◌, Bool-cases}
use Prim.Native.Nat.{ℕ, zero, suc, ◌+◌, ◌-◌, ◌*◌, ◌/◌, ◌%◌, ◌≤◌, ◌<◌}
use mathlib.Core.Path.{◌≡◌, refl}
use mathlib.Core.Logic.{inl, inr}
use mathlib.Core.List.{[], ◌∷◌, ◌++◌}
use native.Mathlib.Omega.{arith}
use trunker.Base.Bytes.{Bytes}
use trunker.Base.Lists.{All, All-append}

-- Each digit needs one round, and a number has no more digits than its value and one.
unfoldable pub digits_fuel : ℕ → ℕ → Bytes
digits_fuel zero n = []
digits_fuel (suc f) n =
    let high = digits_fuel f (n / 10) in
    if ltb n 10 then (n + b'0') ∷ [] else high ++ ((n % 10 + b'0') ∷ [])

unfoldable pub itoa : ℕ → Bytes
unfolding digits_fuel
itoa n = digits_fuel (suc n) n

-- The number that a string of digits stands for, after the digits read so far.
unfoldable pub digits_onto : ℕ → Bytes → ℕ
digits_onto acc [] = acc
digits_onto acc (c ∷ cs) = digits_onto (acc * 10 + (c - b'0')) cs

abbrev pub IsDigit : ℕ → Type 0
IsDigit c = (b'0' ≤ c) × (c ≤ b'9')

digits_onto-append :
    (acc : ℕ) (xs : Bytes) (c : ℕ)
    → digits_onto acc (xs ++ (c ∷ [])) ≡ digits_onto acc xs * 10 + (c - b'0')
unfolding digits_onto
digits_onto-append acc [] c = refl
digits_onto-append acc (x ∷ xs) c = digits_onto-append (acc * 10 + (x - b'0')) xs c

digits_onto-digits_fuel : (f n : ℕ) → n < f → digits_onto 0 (digits_fuel f n) ≡ n
unfolding digits_fuel
digits_onto-digits_fuel zero n h = elim h [ ]
digits_onto-digits_fuel (suc f) n h = elim (Bool-cases (ltb n 10)) [
  | inl small ↦ rw small (unfold digits_onto in omega arith)
  | inr large ↦ rw large (step (digits_onto-digits_fuel f (n / 10) (ground arith)))
]
  where
    step :
        digits_onto 0 (digits_fuel f (n / 10)) ≡ n / 10
        → digits_onto 0 (digits_fuel f (n / 10) ++ ((n % 10 + b'0') ∷ [])) ≡ n
    step ih = omega (arith, ih, digits_onto-append 0 (digits_fuel f (n / 10)) (n % 10 + b'0'))

pub digits_onto-itoa : (n : ℕ) → digits_onto 0 (itoa n) ≡ n
unfolding itoa
digits_onto-itoa n = digits_onto-digits_fuel (suc n) n (omega arith)

digits_fuel-IsDigit : (f n : ℕ) → All IsDigit (digits_fuel f n)
unfolding digits_fuel
digits_fuel-IsDigit zero n = tt
digits_fuel-IsDigit (suc f) n = elim (Bool-cases (ltb n 10)) [
  | inl small ↦ rw small (ground arith)
  | inr large ↦
      rw large (
        All-append IsDigit (digits_fuel f (n / 10)) _ (digits_fuel-IsDigit f (n / 10))
          (omega arith))
]

pub itoa-IsDigit : (n : ℕ) → All IsDigit (itoa n)
unfolding itoa
itoa-IsDigit n = digits_fuel-IsDigit (suc n) n
