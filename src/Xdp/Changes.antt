-- ===== src/Xdp/Changes.antt =====
-- How one call changes what the filter blocks, whatever the forms of the addresses.
use trunker.Base.{
  ℕ, ◌≡◌, refl, sym, ap, ◌∙◌, inl, inr, Bool, true, false, not, ◌&&◌, ◌||◌, none, some, List, [],
  ◌∷◌, arith, ◌==◌, Option-cases, is_some,
}
use mathlib.Core.Option.{some-injective}
use trunker.Base.Bytes.{Bytes, eq_bytes}
use trunker.Base.Little.{get_le}
use trunker.Base.Equality.{Eq, nat_eq, bytes_eq}
use trunker.Net.{IpAddr, to4, to16}
use trunker.Xdp.{BpfMap, XdpFilter, delete_keys, test_ipv4, test_ipv6, test_ip}
use trunker.Xdp.Address.{same_ip, IsIp, same_ip_v4, same_ip_v4_v6, same_ip_v6_v4}

unfoldable pub mem : {K : Type 0} → Eq K → K → List K → Bool
mem e k [] = false
mem e k (j ∷ js) = e.beq j k || mem e k js

-- What a call on a map of the kernel that does not fail documents.
pub record IsBpfMap (K : Type 0) (e : Eq K) (M : BpfMap K) : Type 0 where
  pub lookup-put :
      (j k : K) (m m' : M.Map) → M.put k m ≡ some m' → M.lookup j m' ≡ (e.beq k j || M.lookup j m)
  pub lookup-delete :
      (j k : K) (m m' : M.Map)
      → M.delete k m ≡ some m'
      → M.lookup j m' ≡ (not (e.beq k j) && M.lookup j m)

-- The iterator gives every key of this map, though the caller deletes them meanwhile.
abbrev pub IteratesAll : (K : Type 0) → Eq K → (M : BpfMap K) → M.Map → Type 0
IteratesAll K e M m = (k : K) → M.lookup k m ≡ true → mem e k (M.iterate m) ≡ true

module _ (K : Type 0) (e : Eq K) (M : BpfMap K) (h : IsBpfMap K e M) where
  lookup-delete_keys :
      (j : K) (ks : List K) (m : M.Map)
      → (delete_keys M ks m).1 ≡ true
      → M.lookup j (delete_keys M ks m).0 ≡ (not (mem e j ks) && M.lookup j m)
  unfolding delete_keys mem
  lookup-delete_keys j [] m d = refl
  lookup-delete_keys j (k ∷ ks) m d = elim (Option-cases (M.delete k m)) [
    | inl n ↦ ground (arith, rw (n, delete_keys) at d)
    | inr (m', n) ↦
        let ih = lookup-delete_keys j ks m' (rw (n, delete_keys) at d) in
        let one = h.lookup-delete j k m m' n in rw (n, ih, one, delete_keys, mem) (ground arith)
  ]

  pub lookup-cleared :
      (j : K) (m : M.Map)
      → IteratesAll K e M m
      → (delete_keys M (M.iterate m) m).1 ≡ true
      → M.lookup j (delete_keys M (M.iterate m) m).0 ≡ false
  lookup-cleared j m given d =
      let all = given j in lookup-delete_keys j (M.iterate m) m d ∙ ground (arith, all)

-- The keys under which an address is looked for.
module _ {M4 : BpfMap ℕ} {M6 : BpfMap Bytes} (b : IpAddr) (x : XdpFilter M4 M6) where
  pub test_v4 : (q : Bytes) → to4 b ≡ some q → test_ip b x ≡ M4.lookup (get_le q) x.blocked_ipv4
  unfolding test_ip test_ipv4
  test_v4 q e = rw (e, test_ip, test_ipv4) refl

  pub test_v6 :
      (q : Bytes) → to4 b ≡ none → to16 b ≡ some q → test_ip b x ≡ M6.lookup q x.blocked_ipv6
  unfolding test_ip test_ipv6
  test_v6 q e f = rw (e, f, test_ip, test_ipv6) refl

  pub test_none : to4 b ≡ none → to16 b ≡ none → test_ip b x ≡ false
  unfolding test_ip test_ipv6
  test_none e f = rw (e, f, test_ip, test_ipv6) refl

-- A change of what is blocked: `f` gives the new state of a key from whether it is the changed one
-- and from its old state.
pub record Changes {M4 : BpfMap ℕ} {M6 : BpfMap Bytes} (f : Bool → Bool → Bool) (a : IpAddr)
    (x x' : XdpFilter M4 M6) : Type 0 where
  pub on_v4 :
      (p : Bytes)
      → to4 a ≡ some p
      → ((j : ℕ) → M4.lookup j x'.blocked_ipv4 ≡ f (get_le p == j) (M4.lookup j x.blocked_ipv4))
        × (x'.blocked_ipv6 ≡ x.blocked_ipv6)
  pub on_v6 :
      (p : Bytes)
      → to4 a ≡ none
      → to16 a ≡ some p
      → ((j : Bytes) → M6.lookup j x'.blocked_ipv6 ≡ f (eq_bytes p j) (M6.lookup j x.blocked_ipv6))
        × (x'.blocked_ipv4 ≡ x.blocked_ipv4)
  pub is_ip : is_some (to4 a) || is_some (to16 a) ≡ true

module _ {M4 : BpfMap ℕ} {M6 : BpfMap Bytes} (f : Bool → Bool → Bool)
    (keeps : (y : Bool) → f false y ≡ y) (a b : IpAddr) (ha : IsIp a) (hb : IsIp b)
    (x x' : XdpFilter M4 M6) where
  pub test_ip-Changes : Changes f a x x' → test_ip b x' ≡ f (same_ip a b) (test_ip b x)
  unfolding same_ip
  test_ip-Changes c = elim (Option-cases (to4 a)) [
    | inr (p, e) ↦ elim (Option-cases (to4 b)) [
      | inr (q, g) ↦
          rw (test_v4 b x q g, test_v4 b x' q g, same_ip_v4 a b ha hb p q e g)
            ((c.on_v4 p e).0 (get_le q))
      | inl g ↦
          let same = (c.on_v4 p e).1 in
          elim (Option-cases (to16 b)) [
            | inl n ↦
                rw (test_none b x g n, test_none b x' g n, same_ip_v4_v6 a b p ha e g)
                  (sym (keeps false))
            | inr (q, n) ↦
                rw (test_v6 b x q g n, test_v6 b x' q g n, same_ip_v4_v6 a b p ha e g)
                  (ap (M6.lookup q) same ∙ sym (keeps (M6.lookup q x.blocked_ipv6)))
          ]
    ]
    | inl e ↦ elim (Option-cases (to16 a)) [
      | inl n ↦ ground (arith, rw (e, n) at c.is_ip)
      | inr (p, m) ↦ elim (Option-cases (to4 b)) [
        | inr (q, g) ↦
            rw (test_v4 b x q g, test_v4 b x' q g, same_ip_v6_v4 a b q hb e g)
              (ap (M4.lookup (get_le q)) (c.on_v6 p e m).1
                ∙ sym (keeps (M4.lookup (get_le q) x.blocked_ipv4)))
        | inl g ↦ elim (Option-cases (to16 b)) [
          | inl n ↦ rw (test_none b x g n, test_none b x' g n, m, n, same_ip) (sym (keeps false))
          | inr (q, n) ↦
              rw (test_v6 b x q g n, test_v6 b x' q g n, m, n, same_ip) ((c.on_v6 p e m).0 q)
        ]
      ]
    ]
  ]

some_eq : (o : IpAddr) (p q : Bytes) → o ≡ some p → o ≡ some q → p ≡ q
some_eq o p q e g = some-injective p q (sym e ∙ g)

module _ {M4 : BpfMap ℕ} {M6 : BpfMap Bytes} (f : Bool → Bool → Bool) (a : IpAddr)
    (x : XdpFilter M4 M6) (p : Bytes) (n : ℕ) where
  pub v4-Changes :
      (m : M4.Map)
      → to4 a ≡ some p
      → ((j : ℕ) → M4.lookup j m ≡ f (get_le p == j) (M4.lookup j x.blocked_ipv4))
      → Changes f a x (record x { blocked_ipv4 = m; ipv4_count = n })
  v4-Changes m e law = record {
    on_v4 = λ q g. (λ j. rw (some_eq (to4 a) q p g e) (law j), refl);
    on_v6 = λ q g h. ground (arith, sym g ∙ e);
    is_ip = rw e refl;
  }

  pub v6-Changes :
      (m : M6.Map)
      → to4 a ≡ none
      → to16 a ≡ some p
      → ((j : Bytes) → M6.lookup j m ≡ f (eq_bytes p j) (M6.lookup j x.blocked_ipv6))
      → Changes f a x (record x { blocked_ipv6 = m; ipv6_count = n })
  v6-Changes m e i law = record {
    on_v4 = λ q g. ground (arith, sym g ∙ e);
    on_v6 = λ q g h. (λ j. rw (some_eq (to16 a) q p h i) (law j), refl);
    is_ip = rw (e, i) refl;
  }
