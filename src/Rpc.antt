-- ===== src/Rpc.antt =====
-- biz/services/peer/rpc/adaptor.go and biz/services/rpc/adaptor.go: peers in the form of the calls
-- between servers, the struct Peer of the IDL.
pub mod Peers
pub mod Requests
pub mod Server
pub mod Client
pub mod Transport
pub mod Composed
mod Tests
use trunker.Base.{
  ℕ, zero, suc, ◌+◌, ◌-◌, ◌*◌, ◌/◌, ◌%◌, ◌^◌, ◌≤◌, ◌<◌, min, ◌≡◌, refl, sym, ap, ap₂, ◌∙◌, ◌≢◌, ◌↔◌,
  ◌⊎◌, inl, inr, Bool, true, false, not, ◌&&◌, ◌||◌, Option, none, some, List, [], ◌∷◌, ◌++◌, map,
  arith, ltb, leb, ◌==◌, if◌then◌else◌, ltb→lt, lt→ltb, leb→le, ==_iff, tests, Bool-cases,
  Option-cases, is_some, get_or_else, or_else, length, take, drop, replicate, All, filter, count,
  length-append, All-append, take-append, drop-append, filter_skip, filter_add, length-take,
  length-drop, count-append,
}
use trunker.Base.Bytes.{Bytes}
use trunker.Base.Int.{ℤ, pos, negsuc, wrap, signed64}
use trunker.Config.{second}
use trunker.Net.{IpAddr}
use trunker.Peer.{Peer, PeerType, Source, Offer}
use trunker.Peer.Event.{PeerEvent}

-- The numbers of the enums are those of the tracker's own types, so their values are kept as these;
-- the offers have the same fields. The code that the IDL generates is not in the repository.
pub record IdlPeer : Type 0 where
  pub ip : IpAddr
  pub ipv4 : IpAddr
  pub ipv6 : IpAddr
  pub client_ip : IpAddr
  pub last_seen : ℕ
  pub offers : List Offer
  pub id : Bytes
  pub user_agent : Bytes
  pub port : ℤ
  pub uploaded : ℤ
  pub downloaded : ℤ
  pub left : ℤ
  pub type : PeerType
  pub event : PeerEvent
  pub source : Source

-- `int32(i)` of an int.
unfoldable pub signed32 : ℤ → ℤ
unfolding wrap
signed32 i = if ltb (wrap 32 i) (2 ^ 31) then pos (wrap 32 i) else negsuc (2 ^ 32 - wrap 32 i - 1)

-- `Unix()` is the whole seconds of a time.
unfoldable pub peer_common_to_idl : Peer → IdlPeer
unfolding signed32 signed64
peer_common_to_idl p = record {
  ip = p.ip;
  ipv4 = p.ipv4;
  ipv6 = p.ipv6;
  client_ip = p.client_ip;
  last_seen = p.last_seen / second;
  offers = p.offers;
  id = p.id;
  user_agent = p.user_agent;
  port = signed32 p.port;
  uploaded = signed64 p.uploaded;
  downloaded = signed64 p.downloaded;
  left = signed64 p.left;
  type = p.type;
  event = p.event;
  source = p.source;
}

unfoldable pub peer_idl_to_common : IdlPeer → Peer
unfolding wrap
peer_idl_to_common p = record {
  ip = p.ip;
  ipv4 = p.ipv4;
  ipv6 = p.ipv6;
  client_ip = p.client_ip;
  last_seen = p.last_seen * second;
  offers = p.offers;
  id = p.id;
  user_agent = p.user_agent;
  port = p.port;
  left = wrap 64 p.left;
  uploaded = wrap 64 p.uploaded;
  downloaded = wrap 64 p.downloaded;
  conn = none;
  type = p.type;
  event = p.event;
  source = p.source;
}

-- Thrift has no nil: bytes that are missing are sent as empty ones, and `empty` is what the library
-- makes of empty bytes that it reads.
unfoldable pub received_bytes : IpAddr → IpAddr → IpAddr
received_bytes empty none = empty
received_bytes empty (some []) = empty
received_bytes empty (some (b ∷ bs)) = some (b ∷ bs)

unfoldable pub received_peer : IpAddr → IdlPeer → IdlPeer
unfolding received_bytes
received_peer empty p = record p {
  ip = received_bytes empty p.ip;
  ipv4 = received_bytes empty p.ipv4;
  ipv6 = received_bytes empty p.ipv6;
  client_ip = received_bytes empty p.client_ip;
}
