-- ===== src/Http/Compact.antt =====
-- `ToModel` and `PeersToCompact` of biz/services/peer/common/peer.go.
pub mod Read
use trunker.Base.{
  ℕ, zero, suc, ◌+◌, ◌-◌, ◌*◌, ◌/◌, ◌%◌, ◌^◌, ◌≤◌, ◌<◌, min, ◌≡◌, refl, sym, ap, ap₂, ◌∙◌, ◌≢◌, ◌↔◌,
  ◌⊎◌, inl, inr, Bool, true, false, not, ◌&&◌, ◌||◌, Option, none, some, List, [], ◌∷◌, ◌++◌, map,
  arith, ltb, leb, ◌==◌, if◌then◌else◌, ltb→lt, lt→ltb, leb→le, ==_iff, tests, Bool-cases,
  Option-cases, is_some, get_or_else, or_else, length, take, drop, replicate, All, filter, count,
  length-append, All-append, take-append, drop-append, filter_skip, filter_add, length-take,
  length-drop, count-append,
}
use trunker.Base.Bytes.{Bytes, put_be}
use trunker.Base.Int.{ℤ, wrap}
use trunker.Net.{to4, to16}
use trunker.Net.Print.{ip_string}
use trunker.Peer.{Peer, get_ip}

-- model.Peer; a nil peer does not occur in a list of peers.
pub record ModelPeer : Type 0 where
  pub id : Bytes
  pub ip : Bytes
  pub port : ℤ

unfoldable pub to_model : Bool → Peer → ModelPeer
to_model use_announce_ip p = record {
  id = p.id;
  ip = ip_string (get_ip use_announce_ip p);
  port = p.port;
}

-- The entries of IPv4 addresses and those of the others.
unfoldable pub peers_to_compact : Bool → List Peer → Bytes × Bytes
unfolding put_be get_ip to4 to16
peers_to_compact use_announce_ip [] = ([], [])
peers_to_compact use_announce_ip (p ∷ ps) =
    let ip = get_ip use_announce_ip p in
    let (peers, peers6) = peers_to_compact use_announce_ip ps in
    let port = put_be 2 (wrap 16 p.port) in
    elim (to4 ip) [
      | some b ↦ ((b ++ port) ++ peers, peers6)
      | none ↦ elim (to16 ip) [ some b ↦ (peers, (b ++ port) ++ peers6) | none ↦ (peers, peers6) ]
    ]
