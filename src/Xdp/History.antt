-- ===== src/Xdp/History.antt =====
-- What the filter blocks after a history of calls.
use trunker.Base.{ℕ, Bool, false, not, ◌&&◌, ◌||◌, Option, none, some, List, [], ◌∷◌}
use trunker.Base.Bytes.{Bytes}
use trunker.Base.Equality.{nat_eq, bytes_eq}
use trunker.Net.{IpAddr}
use trunker.Xdp.{BpfMap, XdpError, XdpFilter, clear, add_ip, remove_ip}
use trunker.Xdp.Address.{same_ip, IsIp}
use trunker.Xdp.Changes.{IteratesAll, Changes}

-- A call of the filter's interface.
pub data Call : Type 0 where
  add remove : IpAddr → Call
  clear_all : Call

abbrev pub IsCall : Call → Type 0
IsCall (add a) = IsIp a
IsCall (remove a) = IsIp a
IsCall clear_all = Unit

module _ {M4 : BpfMap ℕ} {M6 : BpfMap Bytes} where
  unfoldable pub step : Call → XdpFilter M4 M6 → XdpFilter M4 M6 × Option XdpError
  unfolding add_ip remove_ip clear
  step (add a) x = add_ip a x
  step (remove a) x = remove_ip a x
  step clear_all x = clear x

  -- The filter after calls of which none has failed.
  unfoldable pub run : List Call → XdpFilter M4 M6 → Option (XdpFilter M4 M6)
  unfolding step
  run [] x = some x
  run (c ∷ cs) x = let (x', error) = step c x in elim error [ none ↦ run cs x' | some e ↦ none ]

-- At each call to clear the filter, the iterators give every key.
unfoldable pub ClearsAll :
    {M4 : BpfMap ℕ} {M6 : BpfMap Bytes} → List Call → XdpFilter M4 M6 → Type 0
unfolding step
ClearsAll [] x = Unit
ClearsAll (add a ∷ cs) x = ClearsAll cs (add_ip a x).0
ClearsAll (remove a ∷ cs) x = ClearsAll cs (remove_ip a x).0
ClearsAll {M4} {M6} (clear_all ∷ cs) x =
    IteratesAll ℕ nat_eq M4 x.blocked_ipv4
    × IteratesAll Bytes bytes_eq M6 x.blocked_ipv6
    × ClearsAll cs (clear x).0

-- Whether an address is blocked after the calls: the last call that is about an equal address, or
-- about all of them, decides.
unfoldable pub blocked_after : List Call → IpAddr → Bool → Bool
unfolding same_ip
blocked_after [] b was = was
blocked_after (add a ∷ cs) b was = blocked_after cs b (same_ip a b || was)
blocked_after (remove a ∷ cs) b was = blocked_after cs b (not (same_ip a b) && was)
blocked_after (clear_all ∷ cs) b was = blocked_after cs b false
