-- ===== src/Peer.antt =====
-- biz/services/peer/common/peer.go and the types of biz/model/http.go that a peer is made of.
pub mod Event
mod Tests
use trunker.Base.{
  ℕ, Bool, true, false, not, ◌||◌, Option, some, List, [], is_some, or_else, length, ltb, ◌==◌,
  if◌then◌else◌,
}
use trunker.Base.Bytes.{Bytes}
use trunker.Base.Int.{ℤ, eq_ℕ}
use trunker.Net.{IpAddr, is_private, is_loopback}
use Event.{PeerEvent}

-- model.PeerType, an int8; `other` is a value with no name.
pub data PeerType : Type 0 where
  bittorrent webtorrent : PeerType
  other : ℕ → PeerType

-- model.Source; `other` is a value with no name.
pub data Source : Type 0 where
  http udp ws : Source
  other : ℕ → Source

pub record OfferDetail : Type 0 where
  pub type : Bytes
  pub sdp : Bytes

pub record Offer : Type 0 where
  pub offer_id : Bytes
  pub offer : OfferDetail

-- A `*model.Conn` is the number of the connection, or nil.
pub record Peer : Type 0 where
  pub ip : IpAddr
  pub ipv4 : IpAddr
  pub ipv6 : IpAddr
  pub client_ip : IpAddr
  pub last_seen : ℕ
  pub offers : List Offer
  pub id : Bytes
  pub user_agent : Bytes
  pub port : ℤ
  pub left : ℕ
  pub uploaded : ℕ
  pub downloaded : ℕ
  pub conn : Option ℕ
  pub type : PeerType
  pub event : PeerEvent
  pub source : Source

-- `==` on peer types.
unfoldable pub eq_type : PeerType → PeerType → Bool
eq_type bittorrent bittorrent = true
eq_type webtorrent webtorrent = true
eq_type (PeerType.other m) (PeerType.other n) = m == n
eq_type _ _ = false

-- `GetIP`: `use_announce_ip` is config.AppConfig.Tracker.UseAnnounceIP, and `net.IP{}` is the empty
-- slice.
unfoldable pub get_ip : Bool → Peer → IpAddr
get_ip use_announce_ip p =
    let announced = or_else p.ip (or_else p.ipv4 p.ipv6) in
    let own = if is_some p.client_ip then p.client_ip else some [] in
    if use_announce_ip then or_else announced own else own

unfoldable pub get_key : Peer → Bytes
get_key p = p.id

-- `IsPeerConnectable`.
unfoldable pub is_peer_connectable : Bool → Peer → Bool
unfolding get_ip
is_peer_connectable use_announce_ip p = elim p.type [
  | bittorrent ↦ not (
      is_private (get_ip use_announce_ip p)
      || (is_loopback (get_ip use_announce_ip p) || (eq_ℕ p.port 0 || eq_ℕ p.port 1)))
  | webtorrent ↦ ltb 0 (length p.offers)
  | PeerType.other n ↦ false
]
