-- ===== src/Rpc/Requests.antt =====
-- biz/services/peer/rpc/adaptor.go and biz/services/rpc/adaptor.go: requests in the form of the calls
-- between servers.
use trunker.Base.{ℕ, ◌^◌, ◌<◌, ◌≡◌, refl, sym, ap, ◌∙◌, Bool, none, List, [], if◌then◌else◌}
use trunker.Base.Bytes.{Bytes}
use trunker.Base.Int.{ℤ, pos, eq_ℕ}
use trunker.Net.{IpAddr}
use trunker.Peer.{PeerType, Source, Offer}
use trunker.Peer.Event.{PeerEvent, parse_peer_event}
use trunker.Request.{AnnounceRequest}
use trunker.Rpc.{signed32}
use trunker.Rpc.Peers.{signed32_same}

-- The struct AnnounceRequest of the IDL. As in a peer, the values of the enums are kept.
pub record IdlAnnounceRequest : Type 0 where
  pub offers : List Offer
  pub client_ip : IpAddr
  pub info_hash : Bytes
  pub peer_id : Bytes
  pub ip : Bytes
  pub ipv4 : Bytes
  pub ipv6 : Bytes
  pub downloaded : ℤ
  pub left : ℤ
  pub uploaded : ℤ
  pub num_want : ℤ
  pub type : PeerType
  pub source : Source
  pub event : PeerEvent
  pub port : ℤ
  pub compact : Bool

unfoldable pub announce_request_common_to_idl : AnnounceRequest → IdlAnnounceRequest
unfolding signed32 eq_ℕ parse_peer_event
announce_request_common_to_idl req = record {
  offers = req.offers;
  client_ip = req.client_ip;
  info_hash = req.info_hash;
  peer_id = req.peer_id;
  ip = req.ip;
  ipv4 = req.ipv4;
  ipv6 = req.ipv6;
  downloaded = req.downloaded;
  left = req.left;
  uploaded = req.uploaded;
  num_want = req.num_want;
  type = req.type;
  source = req.source;
  event = parse_peer_event req.event;
  port = signed32 req.port;
  compact = eq_ℕ req.compact 1;
}

-- `event_string` is the method String of the enum, in the code that the IDL generates.
module _ (event_string : PeerEvent → Bytes) where
  unfoldable pub announce_request_idl_to_common : IdlAnnounceRequest → AnnounceRequest
  announce_request_idl_to_common req = record {
    client_ip = req.client_ip;
    info_hash = req.info_hash;
    peer_id = req.peer_id;
    event = event_string req.event;
    user_agent = [];
    ip = req.ip;
    ipv4 = req.ipv4;
    ipv6 = req.ipv6;
    port = req.port;
    uploaded = req.uploaded;
    downloaded = req.downloaded;
    left = req.left;
    num_want = req.num_want;
    type = req.type;
    compact = if req.compact then pos 1 else pos 0;
    source = req.source;
    offers = req.offers;
    conn = none;
  }

  -- What is left of a request behind a call: the program of the client and the connection are not
  -- sent, and an event without a name is sent as unknown.
  unfoldable pub carried_request : AnnounceRequest → AnnounceRequest
  unfolding parse_peer_event
  carried_request req = record req {
    event = event_string (parse_peer_event req.event);
    user_agent = [];
    compact = if eq_ℕ req.compact 1 then pos 1 else pos 0;
    conn = none;
  }

  pub idl_to_common-common_to_idl :
      (req : AnnounceRequest) (n : ℕ)
      → req.port ≡ pos n
      → n < 2 ^ 31
      → announce_request_idl_to_common (announce_request_common_to_idl req) ≡ carried_request req
  unfolding announce_request_idl_to_common announce_request_common_to_idl carried_request
  idl_to_common-common_to_idl req n e l = rw (ap signed32 e ∙ (signed32_same n l ∙ sym e)) refl
