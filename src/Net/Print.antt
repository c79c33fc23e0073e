-- ===== src/Net/Print.antt =====
-- Go's `ip.String()`.
use trunker.Base.{
  ℕ, zero, suc, ◌+◌, ◌-◌, ◌*◌, ◌/◌, ◌%◌, Bool, true, false, ◌&&◌, none, some, List, [], ◌∷◌, ◌++◌,
  ltb, leb, ◌==◌, if◌then◌else◌, length,
}
use trunker.Base.Bytes.{Bytes, codes}
use trunker.Base.Decimal.{itoa}
use trunker.Net.{IpAddr, to4_bytes}

-- Octets with dots between them.
unfoldable pub dotted : Bytes → Bytes
dotted [] = []
dotted (a ∷ []) = itoa a
dotted (a ∷ (b ∷ rest)) = itoa a ++ (b'.' ∷ dotted (b ∷ rest))

-- The lower-case hexadecimal digit of a value below 16.
hex_digit : ℕ → ℕ
hex_digit d = if ltb d 10 then d + b'0' else d - 10 + b'a'

-- The bytes in hexadecimal, two digits each.
hex_bytes : Bytes → Bytes
unfolding hex_digit
hex_bytes [] = []
hex_bytes (b ∷ bs) = hex_digit (b / 16) ∷ (hex_digit (b % 16) ∷ hex_bytes bs)

-- A 16-bit group with no leading zeros.
hex_group : ℕ → Bytes
unfolding hex_digit
hex_group g =
    let d3 = hex_digit (g / 4096) in
    let d2 = hex_digit (g / 256 % 16) in
    let d1 = hex_digit (g / 16 % 16) in
    let d0 = hex_digit (g % 16) in
    if ltb g 16
    then d0 ∷ []
    else if ltb g 256
    then d1 ∷ (d0 ∷ [])
    else if ltb g 4096
    then d2 ∷ (d1 ∷ (d0 ∷ []))
    else d3 ∷ (d2 ∷ (d1 ∷ (d0 ∷ [])))

groups : Bytes → List ℕ
groups (a ∷ (b ∷ rest)) = (a * 256 + b) ∷ groups rest
groups _ = []

zeros_at : List ℕ → ℕ
zeros_at [] = 0
zeros_at (g ∷ gs) = let rest = suc (zeros_at gs) in if g == 0 then rest else 0

-- The start and length of the first longest run of two or more zero groups.
longest_zeros : ℕ → List ℕ → ℕ × ℕ → ℕ × ℕ
unfolding zeros_at
longest_zeros i [] best = best
longest_zeros i (g ∷ gs) best =
    let n = zeros_at (g ∷ gs) in
    longest_zeros (i + 1) gs (if leb 2 n && ltb best.1 n then (i, n) else best)

-- `skip` groups are left out; `sep` says whether a colon comes before the next one.
print_groups : ℕ → ℕ × ℕ → ℕ → Bool → List ℕ → Bytes
unfolding hex_group
print_groups i run skip sep [] = []
print_groups i run (suc skip) sep (g ∷ gs) = print_groups (i + 1) run skip sep gs
print_groups i run zero sep (g ∷ gs) =
    let zeros = print_groups (i + 1) run (run.1 - 1) false gs in
    let next = print_groups (i + 1) run 0 true gs in
    if i == run.0
    then b':' ∷ (b':' ∷ zeros)
    else (if sep then b':' ∷ [] else []) ++ (hex_group g ++ next)

print_v6 : Bytes → Bytes
unfolding groups longest_zeros print_groups
print_v6 b = let gs = groups b in print_groups 0 (longest_zeros 0 gs (255, 0)) 0 false gs

unfoldable pub ip_string : IpAddr → Bytes
unfolding to4_bytes dotted print_v6 hex_bytes
ip_string none = codes "<nil>"
ip_string (some b) = elim (to4_bytes b) [
  | some v4 ↦ dotted v4
  | none ↦
      if length b == 16
      then print_v6 b
      else if length b == 0
      then codes "<nil>"
      else b'?' ∷ hex_bytes b
]
