-- ===== src/Xdp.antt =====
-- biz/services/peer/mux_local/ban/xdp/filter.go and the Linux filter around it,
-- biz/services/peer/mux_local/ban/ip_filter_xdp_linux.go. The maps of the kernel are a parameter.
pub mod Address
pub mod Changes
pub mod History
pub mod Ports
pub mod Interface
mod Tests
use trunker.Base.{
  ℕ, zero, suc, ◌+◌, ◌-◌, ◌*◌, ◌/◌, ◌%◌, ◌^◌, ◌≤◌, ◌<◌, min, ◌≡◌, refl, sym, ap, ap₂, ◌∙◌, ◌≢◌, ◌↔◌,
  ◌⊎◌, inl, inr, Bool, true, false, not, ◌&&◌, ◌||◌, Option, none, some, List, [], ◌∷◌, ◌++◌, map,
  arith, ltb, leb, ◌==◌, if◌then◌else◌, ltb→lt, lt→ltb, leb→le, ==_iff, tests, Bool-cases,
  Option-cases, is_some, get_or_else, or_else, length, take, drop, replicate, All, filter, count,
  length-append, All-append, take-append, drop-append, filter_skip, filter_add, length-take,
  length-drop, count-append,
}
use trunker.Base.Bytes.{Bytes}
use trunker.Base.Little.{get_le}
use trunker.Mapx.Entries.{DistinctKeys}
use trunker.Net.{IpAddr, to4, to16}

-- A hash map of the kernel: none where the call fails. `iterate` is the keys that the iterator
-- gives while the caller deletes each of them: it may end early or pass over some, and the error
-- that it keeps then is not read. `lookup` is whether the key is there.
pub record BpfMap (K : Type 0) : Type 1 where
  pub Map : Type 0
  pub put : K → Map → Option Map
  pub delete : K → Map → Option Map
  pub lookup : K → Map → Bool
  pub iterate : Map → List K

pub data XdpError : Type 0 where
  not_ipv4 not_ipv6 add_ipv4_failed add_ipv6_failed remove_ipv4_failed remove_ipv6_failed : XdpError
  clear_ipv4_failed clear_ipv6_failed : XdpError

-- An address is 4 bytes read as a number, or 16 bytes.
pub record XdpFilter (M4 : BpfMap ℕ) (M6 : BpfMap Bytes) : Type 0 where
  pub blocked_ipv4 : M4.Map
  pub blocked_ipv6 : M6.Map
  pub ipv4_count : ℕ
  pub ipv6_count : ℕ
  pub iface : Bytes

unfoldable pub count_up : ℕ → ℕ
count_up n = (n + 1) % 2 ^ 64

-- The loops of Clear; false is the return with an error.
unfoldable pub delete_keys : {K : Type 0} (M : BpfMap K) → List K → M.Map → M.Map × Bool
delete_keys M [] m = (m, true)
delete_keys M (k ∷ ks) m = elim (M.delete k m) [ none ↦ (m, false) | some m' ↦ delete_keys M ks m' ]

module _ {M4 : BpfMap ℕ} {M6 : BpfMap Bytes} where
  -- Each call returns the filter after it and its error.
  unfoldable pub add_ipv4 : IpAddr → XdpFilter M4 M6 → XdpFilter M4 M6 × Option XdpError
  unfolding get_le count_up
  add_ipv4 ip x = elim (to4 ip) [
    | none ↦ (x, some not_ipv4)
    | some ip4 ↦ elim (M4.put (get_le ip4) x.blocked_ipv4) [
      | none ↦ (x, some add_ipv4_failed)
      | some m ↦ (record x { blocked_ipv4 = m; ipv4_count = count_up x.ipv4_count }, none)
    ]
  ]

  unfoldable pub add_ipv6 : IpAddr → XdpFilter M4 M6 → XdpFilter M4 M6 × Option XdpError
  unfolding count_up
  add_ipv6 ip x = elim (to16 ip) [
    | none ↦ (x, some not_ipv6)
    | some ip6 ↦ elim (M6.put ip6 x.blocked_ipv6) [
      | none ↦ (x, some add_ipv6_failed)
      | some m ↦ (record x { blocked_ipv6 = m; ipv6_count = count_up x.ipv6_count }, none)
    ]
  ]

  unfoldable pub remove_ipv4 : IpAddr → XdpFilter M4 M6 → XdpFilter M4 M6 × Option XdpError
  unfolding get_le
  remove_ipv4 ip x = elim (to4 ip) [
    | none ↦ (x, some not_ipv4)
    | some ip4 ↦ elim (M4.delete (get_le ip4) x.blocked_ipv4) [
      | none ↦ (x, some remove_ipv4_failed)
      | some m ↦ (record x { blocked_ipv4 = m; ipv4_count = x.ipv4_count - 1 }, none)
    ]
  ]

  unfoldable pub remove_ipv6 : IpAddr → XdpFilter M4 M6 → XdpFilter M4 M6 × Option XdpError
  remove_ipv6 ip x = elim (to16 ip) [
    | none ↦ (x, some not_ipv6)
    | some ip6 ↦ elim (M6.delete ip6 x.blocked_ipv6) [
      | none ↦ (x, some remove_ipv6_failed)
      | some m ↦ (record x { blocked_ipv6 = m; ipv6_count = x.ipv6_count - 1 }, none)
    ]
  ]

  unfoldable pub test_ipv4 : IpAddr → XdpFilter M4 M6 → Bool
  unfolding get_le
  test_ipv4 ip x = elim (to4 ip) [ none ↦ false | some ip4 ↦ M4.lookup (get_le ip4) x.blocked_ipv4 ]

  unfoldable pub test_ipv6 : IpAddr → XdpFilter M4 M6 → Bool
  test_ipv6 ip x = elim (to16 ip) [ none ↦ false | some ip6 ↦ M6.lookup ip6 x.blocked_ipv6 ]

  unfoldable pub clear : XdpFilter M4 M6 → XdpFilter M4 M6 × Option XdpError
  unfolding delete_keys
  clear x =
      let (m4, done4) = delete_keys M4 (M4.iterate x.blocked_ipv4) x.blocked_ipv4 in
      let (m6, done6) = delete_keys M6 (M6.iterate x.blocked_ipv6) x.blocked_ipv6 in
      if not done4
      then (record x { blocked_ipv4 = m4 }, some clear_ipv4_failed)
      else if not done6
      then (record x { blocked_ipv4 = m4; blocked_ipv6 = m6 }, some clear_ipv6_failed)
      else (record x { blocked_ipv4 = m4; blocked_ipv6 = m6; ipv4_count = 0; ipv6_count = 0 }, none)

  unfoldable pub get_ip_count : XdpFilter M4 M6 → ℕ × ℕ
  get_ip_count x = (x.ipv4_count, x.ipv6_count)

  -- The methods of xdpIPFilter.
  unfoldable pub add_ip : IpAddr → XdpFilter M4 M6 → XdpFilter M4 M6 × Option XdpError
  unfolding add_ipv4 add_ipv6
  add_ip ip x = if is_some (to4 ip) then add_ipv4 ip x else add_ipv6 ip x

  unfoldable pub remove_ip : IpAddr → XdpFilter M4 M6 → XdpFilter M4 M6 × Option XdpError
  unfolding remove_ipv4 remove_ipv6
  remove_ip ip x = if is_some (to4 ip) then remove_ipv4 ip x else remove_ipv6 ip x

  unfoldable pub test_ip : IpAddr → XdpFilter M4 M6 → Bool
  unfolding test_ipv4 test_ipv6
  test_ip ip x = if is_some (to4 ip) then test_ipv4 ip x else test_ipv6 ip x

-- IPFilterStats of a filter whose counters of packets are `dropped` and `allowed`; none is a
-- failed lookup.
pub record IpFilterStats : Type 0 where
  pub total_ips : ℕ
  pub packets_dropped : ℕ
  pub packets_allowed : ℕ
  pub is_xdp : Bool
  pub interface_name : Bytes

unfoldable pub get_stats : Option ℕ → Option ℕ → ℕ × ℕ
get_stats dropped allowed = (get_or_else dropped 0, get_or_else allowed 0)

unfoldable pub stats :
    {M4 : BpfMap ℕ} {M6 : BpfMap Bytes} → Option ℕ → Option ℕ → XdpFilter M4 M6 → IpFilterStats
unfolding get_stats get_ip_count
stats dropped allowed x =
    let (d, a) = get_stats dropped allowed in
    let (ipv4, ipv6) = get_ip_count x in
    record {
      total_ips = (ipv4 + ipv6) % 2 ^ 64;
      packets_dropped = d;
      packets_allowed = a;
      is_xdp = true;
      interface_name = x.iface;
    }
