-- ===== src/Net.antt =====
-- Go's net.IP, as far as the tracker uses it: a slice of 4 or 16 bytes, nil as `none`.
pub mod Parse
pub mod Print
mod Tests
use trunker.Base.{
  ◌/◌, Bool, false, ◌&&◌, ◌||◌, Option, none, some, [], ◌∷◌, ◌++◌, length, take, drop, replicate,
  ◌==◌, if◌then◌else◌,
}
use trunker.Base.Bytes.{Bytes, eq_bytes}

abbrev pub IpAddr : Type 0
IpAddr = Option Bytes

-- The twelve bytes in front of an IPv4 address in its 16-byte form.
abbrev pub v4_prefix : Bytes
v4_prefix = replicate 10 0 ++ (0xff ∷ 0xff ∷ [])

-- `ip.To4()` and `ip.To16()` of a slice that is there.
unfoldable pub to4_bytes : Bytes → IpAddr
to4_bytes b =
    if length b == 4
    then some b
    else if length b == 16 && eq_bytes (take 12 b) v4_prefix
    then some (drop 12 b)
    else none

unfoldable pub to16_bytes : Bytes → IpAddr
to16_bytes b =
    if length b == 4 then some (v4_prefix ++ b) else if length b == 16 then some b else none

unfoldable pub to4 : IpAddr → IpAddr
unfolding to4_bytes
to4 none = none
to4 (some b) = to4_bytes b

unfoldable pub to16 : IpAddr → IpAddr
unfolding to16_bytes
to16 none = none
to16 (some b) = to16_bytes b

-- `ip.IsPrivate()` of an IPv4 address: 10/8, 172.16/12 and 192.168/16; of an IPv6 one: fc00::/7.
unfoldable pub private4 : Bytes → Bool
private4 (a ∷ b ∷ rest) = a == 10 || ((a == 172 && b / 16 == 1) || (a == 192 && b == 168))
private4 _ = false

unfoldable pub private6 : Bytes → Bool
private6 b = length b == 16 && first_is_fc b
  where
    first_is_fc : Bytes → Bool
    first_is_fc [] = false
    first_is_fc (x ∷ xs) = x / 2 == 0x7e

unfoldable pub is_private : IpAddr → Bool
unfolding private4 private6 to4_bytes
is_private none = false
is_private (some b) = elim (to4_bytes b) [ none ↦ private6 b | some v4 ↦ private4 v4 ]

-- `ip.IsLoopback()`: 127/8, and ::1.
unfoldable pub is_loopback : IpAddr → Bool
unfolding to4_bytes
is_loopback none = false
is_loopback (some b) = elim (to4_bytes b) [
  | none ↦ eq_bytes b (replicate 15 0 ++ (1 ∷ []))
  | some v4 ↦ starts_127 v4
]
  where
    starts_127 : Bytes → Bool
    starts_127 [] = false
    starts_127 (x ∷ xs) = x == 127
