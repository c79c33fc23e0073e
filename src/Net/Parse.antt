-- ===== src/Net/Parse.antt =====
-- Go's `net.ParseIP`: netip.ParseAddr, with an address that has a zone refused, in the 16-byte form.
use trunker.Base.{
  ℕ, zero, suc, ◌+◌, ◌-◌, ◌*◌, ◌/◌, ◌%◌, Bool, false, not, ◌&&◌, ◌||◌, Option, none, some, [], ◌∷◌,
  ◌++◌, ltb, leb, ◌==◌, if◌then◌else◌, is_some, length, take, drop, replicate,
}
use trunker.Base.Bytes.{Bytes}
use trunker.Net.{IpAddr, v4_prefix}

is_digit : ℕ → Bool
is_digit c = leb b'0' c && leb c b'9'

-- parseIPv4Fields: `fields` are the bytes done, `val` and `dig_len` those of the current one, and
-- `start` holds where a field has no digit yet.
unfoldable pub v4_fields : Bytes → Bytes → ℕ → ℕ → Option Bytes
unfolding is_digit
v4_fields [] fields val dig_len =
    if length fields == 3 && ltb 0 dig_len then some (fields ++ (val ∷ [])) else none
v4_fields (c ∷ s) fields val dig_len =
    let digit = v4_fields s fields (val * 10 + (c - b'0')) (dig_len + 1) in
    let dot = v4_fields s (fields ++ (val ∷ [])) 0 0 in
    if is_digit c
    then (if (dig_len == 1 && val == 0) || ltb 255 (val * 10 + (c - b'0')) then none else digit)
    else (if c == b'.' && (ltb 0 dig_len && ltb (length fields) 3) then dot else none)

-- The value of a hexadecimal digit.
unfoldable pub hex_val : ℕ → Option ℕ
hex_val c =
    if leb b'0' c && leb c b'9'
    then some (c - b'0')
    else if leb b'a' c && leb c b'f'
    then some (c - b'a' + 10)
    else if leb b'A' c && leb c b'F'
    then some (c - b'A' + 10)
    else none

-- The leading hexadecimal digits of `s`: how many, their value and what follows.
unfoldable pub hex_run : Bytes → ℕ → ℕ → ℕ × ℕ × Bytes
unfolding hex_val
hex_run [] off acc = (off, acc, [])
hex_run (c ∷ s) off acc = elim (hex_val c) [
  | none ↦ (off, acc, c ∷ s)
  | some d ↦ hex_run s (off + 1) (acc * 16 + d)
]

-- The bytes parsed so far with the ellipsis filled by zeros.
expand : Bytes → Option ℕ → Option Bytes
expand ip none = if length ip == 16 then some ip else none
expand ip (some e) =
    if length ip == 16
    then none
    else some (take e ip ++ (replicate (16 - length ip) 0 ++ drop e ip))

starts_with : ℕ → Bytes → Bool
starts_with c [] = false
starts_with c (x ∷ xs) = x == c

-- The loop of parseIPv6. Each round takes one group, so nine rounds are enough.
unfoldable pub v6_groups : ℕ → Bytes → Bytes → Option ℕ → Option Bytes
unfolding v4_fields hex_run expand starts_with
v6_groups zero s ip e = none
v6_groups (suc n) s ip e =
    let (off, acc, rest) = hex_run s 0 0 in
    let tail = drop 1 rest in
    let plain = ip ++ (acc / 256 ∷ acc % 256 ∷ []) in
    let next = v6_groups n tail plain e in
    let after_ellipsis = v6_groups n (drop 1 tail) plain (some (length plain)) in
    if length ip == 16
    then none
    else if off == 0 || ltb 4 off
    then none
    else if starts_with b'.' rest
    then (if (not (is_some e) && not (length ip == 12)) || ltb 12 (length ip)
        then none
        else elim (v4_fields s [] 0 0) [ none ↦ none | some v4 ↦ expand (ip ++ v4) e ])
    else if length rest == 0
    then expand plain e
    else if not (starts_with b':' rest) || length tail == 0
    then none
    else if starts_with b':' tail
    then (if is_some e
        then none
        else if length tail == 1
        then expand plain (some (length plain))
        else if length plain == 16
        then none
        else after_ellipsis)
    else (if length plain == 16 then none else next)

parse_v6 : Bytes → Option Bytes
unfolding v6_groups starts_with
parse_v6 s =
    if starts_with b':' s && starts_with b':' (drop 1 s)
    then (if length s == 2 then some (replicate 16 0) else v6_groups 9 (drop 2 s) [] (some 0))
    else v6_groups 9 s [] none

contains : ℕ → Bytes → Bool
contains c [] = false
contains c (x ∷ xs) = x == c || contains c xs

-- The first of `.`, `:` and `%` says which form is tried.
unfoldable pub parse_ip : Bytes → IpAddr
unfolding parse_v6 v4_fields contains
parse_ip s = scan s
  where
    as_v4 : Option Bytes → IpAddr
    as_v4 none = none
    as_v4 (some v4) = some (v4_prefix ++ v4)

    scan : Bytes → IpAddr
    scan [] = none
    scan (c ∷ cs) =
        let rest = scan cs in
        if c == b'.'
        then as_v4 (v4_fields s [] 0 0)
        else if c == b':'
        then (if contains b'%' s then none else parse_v6 s)
        else if c == b'%'
        then none
        else rest
