-- ===== src/Ban/IpFilter.antt =====
-- biz/services/peer/mux_local/ban/ip_filter.go: the interface IPFilter, and fallbackIPFilter, whose
-- methods return no error.
use trunker.Base.{Bool, Option, none, List, [], is_some}
use trunker.Base.Bytes.{Bytes}
use trunker.Base.Equality.{bytes_eq}
use trunker.Mapx.Entries.{lookup, insert, erase}
use trunker.Net.{IpAddr}
use trunker.Net.Print.{ip_string}

-- The filter after a call, and its error. Close and Stats change nothing.
pub record IpFilter : Type 1 where
  pub Filter : Type 0
  pub add_ip : IpAddr → Filter → Filter × Option Bytes
  pub remove_ip : IpAddr → Filter → Filter × Option Bytes
  pub test_ip : IpAddr → Filter → Bool
  pub clear : Filter → Filter × Option Bytes

-- `blocked` is a set of texts of addresses.
pub record FallbackIpFilter : Type 0 where
  pub blocked : List (Bytes × Unit {0})

unfoldable pub new_fallback_ip_filter : FallbackIpFilter
new_fallback_ip_filter = record { blocked = [] }

unfoldable pub add_ip : IpAddr → FallbackIpFilter → FallbackIpFilter
unfolding insert
add_ip ip f = record { blocked = insert (ip_string ip) tt f.blocked }

unfoldable pub remove_ip : IpAddr → FallbackIpFilter → FallbackIpFilter
unfolding erase
remove_ip ip f = record { blocked = erase (ip_string ip) f.blocked }

unfoldable pub test_ip : IpAddr → FallbackIpFilter → Bool
unfolding lookup
test_ip ip f = is_some (lookup (ip_string ip) f.blocked)

unfoldable pub clear_ips : FallbackIpFilter → FallbackIpFilter
clear_ips f = record { blocked = [] }

abbrev pub fallback_ip_filter : IpFilter
fallback_ip_filter = record {
  Filter = FallbackIpFilter;
  add_ip = λ ip f. (add_ip ip f, none);
  remove_ip = λ ip f. (remove_ip ip f, none);
  test_ip = test_ip;
  clear = λ f. (clear_ips f, none);
}
