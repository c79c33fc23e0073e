-- ===== src/Xdp/Interface.antt =====
-- xdpIPFilter of biz/services/peer/mux_local/ban/ip_filter_xdp_linux.go as an IPFilter.
use mathlib.Core.Option as Option
use trunker.Base.{ℕ}
use trunker.Base.Bytes.{Bytes}
use trunker.Ban.IpFilter.{IpFilter}
use trunker.Xdp.{BpfMap, XdpError, XdpFilter, add_ip, remove_ip, test_ip, clear}

-- `message` is the text of an error, which has that of the kernel's error in it.
abbrev pub xdp_ip_filter : BpfMap ℕ → BpfMap Bytes → (XdpError → Bytes) → IpFilter
xdp_ip_filter M4 M6 message = record {
  Filter = XdpFilter M4 M6;
  add_ip = λ ip x. let (x', error) = add_ip ip x in (x', Option.map message error);
  remove_ip = λ ip x. let (x', error) = remove_ip ip x in (x', Option.map message error);
  test_ip = test_ip;
  clear = λ x. let (x', error) = clear x in (x', Option.map message error);
}
