-- ===== src/Xdp/Tests.antt =====
-- A history of calls on maps that are lists of keys.
use trunker.Base.{
  ℕ, zero, suc, ◌+◌, ◌-◌, ◌*◌, ◌/◌, ◌%◌, ◌^◌, ◌≤◌, ◌<◌, min, ◌≡◌, refl, sym, ap, ap₂, ◌∙◌, ◌≢◌, ◌↔◌,
  ◌⊎◌, inl, inr, Bool, true, false, ◌||◌, Option, none, some, List, [], ◌∷◌, ◌++◌, map, ltb, leb,
  ◌==◌, if◌then◌else◌, ltb→lt, lt→ltb, leb→le, ==_iff, tests, Bool-cases, Option-cases, is_some,
  get_or_else, or_else, length, take, drop, replicate, All, filter, count, length-append,
  All-append, take-append, drop-append, filter_skip, filter_add, length-take, length-drop,
  count-append,
}
use trunker.Base.Bytes.{Bytes, codes}
use trunker.Base.Equality.{Eq, nat_eq, bytes_eq}
use trunker.Net.{IpAddr, v4_prefix}
use trunker.Xdp.{BpfMap, XdpFilter}
use trunker.Xdp.Changes.{mem}
use trunker.Xdp.History.{Call, add, remove, clear_all}
use trunker.Xdp.Ports.{parse_port}

unfoldable without : {K : Type 0} → Eq K → K → List K → List K
without e k [] = []
without e k (j ∷ js) = let rest = without e k js in if e.beq k j then rest else j ∷ rest

abbrev keys : (K : Type 0) → Eq K → BpfMap K
keys K e = record {
  Map = List K;
  put = λ k m. some (k ∷ m);
  delete = λ k m. some (without e k m);
  lookup = mem e;
  iterate = λ m. m;
}

abbrev filter0 : XdpFilter (keys ℕ nat_eq) (keys Bytes bytes_eq)
filter0 = record {
  blocked_ipv4 = [];
  blocked_ipv6 = [];
  ipv4_count = 0;
  ipv6_count = 0;
  iface = codes "eth0";
}

-- 1.2.3.4 in its two forms.
abbrev short : Bytes
short = 1 ∷ 2 ∷ 3 ∷ 4 ∷ []

abbrev calls : List Call
calls = clear_all ∷ add (some (v4_prefix ++ short)) ∷ remove (some (1 ∷ 2 ∷ 3 ∷ 5 ∷ [])) ∷ []

port : parse_port (codes "0.0.0.0:8443") ≡ some 8443
unfolding parse_port
port = refl

abbrev filter1 : XdpFilter (keys ℕ nat_eq) (keys Bytes bytes_eq)
filter1 = record filter0 { blocked_ipv4 = 0x04030201 ∷ [] }
