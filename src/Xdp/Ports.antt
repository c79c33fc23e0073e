-- ===== src/Xdp/Ports.antt =====
-- The start of the filter: the ports that it looks at, read from the configuration, and the choice
-- between the filter of the kernel and the one of ip_filter.go.
use trunker.Base.{
  ℕ, ◌+◌, ◌-◌, ◌*◌, ◌^◌, ◌⊎◌, inl, inr, Bool, true, not, ◌&&◌, ◌||◌, Option, none, some, List, [],
  ◌∷◌, ◌++◌, ltb, leb, ◌==◌, if◌then◌else◌, is_some, length,
}
use trunker.Base.Bytes.{Bytes}
use trunker.Xdp.{BpfMap, XdpFilter}

-- The part behind the last colon, none without a colon.
unfoldable pub after_last_colon : Bytes → Option Bytes
after_last_colon [] = none
after_last_colon (c ∷ cs) =
    let rest = after_last_colon cs in
    if is_some rest then rest else if c == 58 then some cs else none

-- `strconv.ParseUint(s, 10, 16)` of the standard library.
unfoldable pub digits_onto : ℕ → Bytes → Option ℕ
digits_onto acc [] = some acc
digits_onto acc (c ∷ cs) =
    let rest = digits_onto (acc * 10 + (c - 48)) cs in if leb 48 c && leb c 57 then rest else none

unfoldable pub parse_uint16 : Bytes → Option ℕ
unfolding digits_onto
parse_uint16 [] = none
parse_uint16 (c ∷ cs) = elim (digits_onto 0 (c ∷ cs)) [
  | none ↦ none
  | some n ↦ if ltb n (2 ^ 16) then some n else none
]

unfoldable pub parse_port : Bytes → Option ℕ
unfolding after_last_colon parse_uint16
parse_port host_port = elim (after_last_colon host_port) [
  | none ↦ none
  | some last ↦ parse_uint16 last
]

-- The settings of the configuration that this code reads.
pub record FilterConfig : Type 0 where
  pub host_ports : Bytes
  pub udp_enable : Bool
  pub udp_host_ports : Bytes
  pub xdp_enable : Bool

abbrev pub ports_of : Bool → Bytes → List ℕ
ports_of enable host_port =
    if enable && ltb 0 (length host_port)
    then elim (parse_port host_port) [ none ↦ [] | some port ↦ port ∷ [] ]
    else []

-- A configuration that is not there has no ports.
unfoldable pub get_filter_ports : Option FilterConfig → List ℕ
unfolding parse_port
get_filter_ports none = []
get_filter_ports (some cfg) =
    ports_of true cfg.host_ports ++ ports_of cfg.udp_enable cfg.udp_host_ports

-- What the calls of the system do when the filter starts.
pub record Kernel (M4 : BpfMap ℕ) (M6 : BpfMap Bytes) : Type 0 where
  pub remove_memlock : Bool
  pub load_objects : Option (M4.Map × M6.Map)
  pub put_port : ℕ → Bool
  pub find_interface : Bytes → Bool
  pub attach : Bytes → Bool

pub data StartError : Type 0 where
  err_memlock err_load_failed err_no_interface err_attach_failed : StartError
  err_port : ℕ → StartError

unfoldable pub put_ports : {M4 : BpfMap ℕ} {M6 : BpfMap Bytes} → Kernel M4 M6 → List ℕ → Option ℕ
put_ports k [] = none
put_ports k (p ∷ ps) = let rest = put_ports k ps in if k.put_port p then rest else some p

module _ {M4 : BpfMap ℕ} {M6 : BpfMap Bytes} where
  unfoldable pub new_xdp_filter : Kernel M4 M6 → Bytes → List ℕ → XdpFilter M4 M6 ⊎ StartError
  unfolding put_ports
  new_xdp_filter k iface_name filter_ports =
      if not k.remove_memlock then inr err_memlock else elim k.load_objects [
        | none ↦ inr err_load_failed
        | some (m4, m6) ↦ elim (put_ports k filter_ports) [
          | some p ↦ inr (err_port p)
          | none ↦
              if not (k.find_interface iface_name)
              then inr err_no_interface
              else if not (k.attach iface_name)
              then inr err_attach_failed
              else inl (record {
                blocked_ipv4 = m4;
                blocked_ipv6 = m6;
                ipv4_count = 0;
                ipv6_count = 0;
                iface = iface_name;
              })
        ]
      ]

  -- none is the filter of ip_filter.go.
  unfoldable pub new_ip_filter :
      Kernel M4 M6 → Option FilterConfig → Bytes → Option (XdpFilter M4 M6)
  unfolding new_xdp_filter get_filter_ports
  new_ip_filter k none iface_name = none
  new_ip_filter k (some cfg) iface_name =
      if not cfg.xdp_enable || length iface_name == 0
      then none
      else elim (new_xdp_filter k iface_name (get_filter_ports (some cfg))) [
        | inl x ↦ some x
        | inr e ↦ none
      ]
