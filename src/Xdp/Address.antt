-- ===== src/Xdp/Address.antt =====
-- The keys of addresses in the maps of the kernel: two addresses have one key when Go's `Equal` says
-- that they are equal.
use trunker.Base.{
  ℕ, zero, suc, ◌≡◌, refl, sym, ap, ◌∙◌, inl, inr, Bool, true, false, ◌&&◌, none, some, [], ◌∷◌,
  ◌++◌, arith, ◌==◌, Bool-cases, Option-cases, length, take, drop, All, length-drop,
}
use mathlib.Core.Path.{subst}
use trunker.Base.Bytes.{Bytes, IsByte, eq_bytes, eq_bytes_iff}
use trunker.Base.Little.{get_le}
use trunker.Net.{IpAddr, to4, to16, v4_prefix, to4_bytes, to16_bytes}

-- `ip.Equal(x)` of the standard library, false on a slice that is no address.
unfoldable pub same_ip : IpAddr → IpAddr → Bool
unfolding to16 eq_bytes
same_ip a b = elim (to16 a) [
  | none ↦ false
  | some p ↦ elim (to16 b) [ none ↦ false | some q ↦ eq_bytes p q ]
]

-- The slice is made of bytes.
abbrev pub IsIp : IpAddr → Type 0
IsIp none = Unit
IsIp (some b) = All IsByte b

pub get_le_eq :
    (x y : Bytes)
    → All IsByte x
    → All IsByte y
    → length x ≡ length y
    → (get_le x == get_le y) ≡ eq_bytes x y
unfolding get_le eq_bytes
get_le_eq [] [] h k l = ground arith
get_le_eq [] (y ∷ ys) h k l = ground arith
get_le_eq (x ∷ xs) [] h k l = ground arith
get_le_eq (x ∷ xs) (y ∷ ys) (h, hs) (k, ks) l =
    let ih = get_le_eq xs ys hs ks (omega arith) in ground (arith, ih)

All-drop : (n : ℕ) (xs : Bytes) → All IsByte xs → All IsByte (drop n xs)
All-drop zero xs h = h
All-drop (suc n) [] h = tt
All-drop (suc n) (x ∷ xs) (h, t) = All-drop n xs t

-- An address with a 4-byte form: its 16-byte form follows the prefix.
pub record IsV4 (a : IpAddr) (x : Bytes) : Type 0 where
  pub mapped : to16 a ≡ some (v4_prefix ++ x)
  pub four : length x ≡ 4
  pub bytes : All IsByte x

take-drop : (n : ℕ) (xs : Bytes) → take n xs ++ drop n xs ≡ xs
take-drop zero xs = refl
take-drop (suc n) [] = refl
take-drop (suc n) (x ∷ xs) = ap (◌∷◌ x) (take-drop n xs)

short-IsV4 : (b : Bytes) → All IsByte b → length b ≡ 4 → IsV4 (some b) b
unfolding to16 to16_bytes
short-IsV4 b h l = record { mapped = rw l refl; four = l; bytes = h }

long-IsV4 :
    (b : Bytes) → All IsByte b → length b ≡ 16 → take 12 b ≡ v4_prefix → IsV4 (some b) (drop 12 b)
unfolding to16 to16_bytes
long-IsV4 b h l p = record {
  mapped = rw l (ap some (sym (ap (λ t. t ++ drop 12 b) (sym p) ∙ take-drop 12 b)));
  four = length-drop 12 b ∙ omega arith;
  bytes = All-drop 12 b h;
}

some_eq : (a b : Bytes) → ◌≡◌ {A = IpAddr} (some a) (some b) → a ≡ b
some_eq a b e = ground (arith, e)

pub to4-IsV4 : (a : IpAddr) (x : Bytes) → IsIp a → to4 a ≡ some x → IsV4 a x
unfolding to4 to4_bytes
to4-IsV4 none x h e = ground arith
to4-IsV4 (some b) x h e = elim (Bool-cases (length b == 4)) [
  | inl l ↦
      let same : b ≡ x = some_eq b x (rw (l, to4_bytes) at e) in
      subst (λ t. IsV4 (some b) t) same (short-IsV4 b h (ground arith))
  | inr l ↦ elim (Bool-cases (length b == 16 && eq_bytes (take 12 b) v4_prefix)) [
    | inl q ↦
        let same : drop 12 b ≡ x = some_eq (drop 12 b) x (rw (l, q, to4_bytes) at e) in
        subst (λ t. IsV4 (some b) t) same
          (long-IsV4 b h (ground arith) ((eq_bytes_iff (take 12 b) v4_prefix).0 (ground arith)))
    | inr q ↦ ground (arith, rw (l, q, to4_bytes) at e)
  ]
]

pub to16_other :
    (a : IpAddr) (p x : Bytes)
    → to4 a ≡ none
    → to16 a ≡ some p
    → eq_bytes (v4_prefix ++ x) p ≡ false
unfolding to4 to16 to4_bytes to16_bytes
to16_other none p x e f = ground arith
to16_other (some b) p x e f = elim (Bool-cases (eq_bytes (v4_prefix ++ x) p)) [
  | inr differs ↦ differs
  | inl eq ↦
      let same : v4_prefix ++ x ≡ p = (eq_bytes_iff (v4_prefix ++ x) p).0 eq in
      elim (Bool-cases (length b == 4)) [
        | inl l ↦ ground (arith, rw (l, to4_bytes) at e)
        | inr l ↦ elim (Bool-cases (length b == 16)) [
          | inr m ↦ ground (arith, rw (l, m, to16_bytes) at f)
          | inl m ↦
              let whole : b ≡ p = some_eq b p (rw (l, m, to16_bytes) at f) in
              let front : eq_bytes (take 12 b) v4_prefix ≡ true =
                (eq_bytes_iff (take 12 b) v4_prefix).1 (ap (take 12) (whole ∙ sym same)) in
              ground (arith, rw (l, m, front, to4_bytes) at e)
        ]
      ]
]

-- Equal addresses have one key, of the kind of their forms.
module _ (a b : IpAddr) (ha : IsIp a) (hb : IsIp b) where
  pub same_ip_v4 :
      (x y : Bytes) → to4 a ≡ some x → to4 b ≡ some y → same_ip a b ≡ (get_le x == get_le y)
  unfolding same_ip eq_bytes
  same_ip_v4 x y e f =
      let va = to4-IsV4 a x ha e in
      let vb = to4-IsV4 b y hb f in
      let key = get_le_eq x y va.bytes vb.bytes (va.four ∙ sym vb.four) in
      rw (va.mapped, vb.mapped, key, same_ip) refl

pub same_ip_v4_v6 :
    (a b : IpAddr) (x : Bytes) → IsIp a → to4 a ≡ some x → to4 b ≡ none → same_ip a b ≡ false
unfolding same_ip
same_ip_v4_v6 a b x ha e f =
    let va = to4-IsV4 a x ha e in
    elim (Option-cases (to16 b)) [
      | inl n ↦ rw (va.mapped, n, same_ip) refl
      | inr (q, n) ↦ rw (va.mapped, n, same_ip) (to16_other b q x f n)
    ]

pub same_ip_v6_v4 :
    (a b : IpAddr) (y : Bytes) → IsIp b → to4 a ≡ none → to4 b ≡ some y → same_ip a b ≡ false
unfolding same_ip
same_ip_v6_v4 a b y hb e f =
    let vb = to4-IsV4 b y hb f in
    elim (Option-cases (to16 a)) [
      | inl n ↦ rw (n, same_ip) refl
      | inr (p, n) ↦
          let one = to16_other a p y e n in
          rw (n, vb.mapped, same_ip) (differs p (v4_prefix ++ y) one)
    ]
  where
    differs : (p q : Bytes) → eq_bytes q p ≡ false → eq_bytes p q ≡ false
    differs p q h = elim (Bool-cases (eq_bytes p q)) [
      | inr n ↦ n
      | inl t ↦ let u = (eq_bytes_iff q p).1 (sym ((eq_bytes_iff p q).0 t)) in ground (arith, u, h)
    ]
