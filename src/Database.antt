-- ===== src/Database.antt =====
-- biz/services/peer/database: entity, the queries of data, and adaptor.go. The database is a library's:
-- `Gorm` is its interface as the queries call it. The condition of a Where is a test of a row.
pub mod Manager
pub mod Restored
pub mod Adaptor
pub mod Picked
mod Tests
use trunker.Base.{
  ℕ, zero, suc, ◌+◌, ◌-◌, ◌*◌, ◌/◌, ◌%◌, ◌^◌, ◌≤◌, ◌<◌, min, ◌≡◌, refl, sym, ap, ap₂, ◌∙◌, ◌≢◌, ◌↔◌,
  ◌⊎◌, inl, inr, Bool, true, false, not, ◌&&◌, ◌||◌, Option, none, some, List, [], ◌∷◌, ◌++◌, map,
  arith, ltb, leb, ◌==◌, if◌then◌else◌, ltb→lt, lt→ltb, leb→le, ==_iff, tests, Bool-cases,
  Option-cases, is_some, get_or_else, or_else, length, take, drop, replicate, All, filter, count,
  length-append, All-append, take-append, drop-append, filter_skip, filter_add, length-take,
  length-drop, count-append,
}
use trunker.Base.Bytes.{Bytes, eq_bytes}
use trunker.Base.Int.{ℤ, pos}
use trunker.Net.{IpAddr}
use trunker.Config.{Config, second}
use trunker.Peer.{Peer, PeerType, Source, Offer, eq_type}
use trunker.Peer.Event.{PeerEvent, stopped, completed, eq_event}
use trunker.Ban.Hex.{hex_encode, hex_value}
use trunker.Tracker.{Outcome, Action}

-- entity.Peers. The event is an int8 in both types, so it is not converted.
pub record Peers : Type 0 where
  pub ip : IpAddr
  pub ipv4 : IpAddr
  pub ipv6 : IpAddr
  pub client_ip : IpAddr
  pub last_seen : ℕ
  pub offers : List Offer
  pub updated_at : ℕ
  pub info_hash : Bytes
  pub peer_id : Bytes
  pub user_agent : Bytes
  pub id : ℕ
  pub port : ℤ
  pub left : ℕ
  pub uploaded : ℕ
  pub downloaded : ℕ
  pub type : PeerType
  pub source : Source
  pub event : PeerEvent

pub data BlockType : Type 0 where
  block_type_info_hash block_type_peer_id : BlockType

unfoldable pub eq_block_type : BlockType → BlockType → Bool
eq_block_type block_type_info_hash block_type_info_hash = true
eq_block_type block_type_peer_id block_type_peer_id = true
eq_block_type _ _ = false

pub record BlockList : Type 0 where
  pub target : Bytes
  pub type : BlockType
  pub created_at : ℕ

-- `find_peers_at_random` is Order("RAND()").Limit(n).Find, with the random numbers' seed first.
pub record Gorm : Type 1 where
  pub Db : Type 0
  pub find_peers : (Peers → Bool) → Db → Outcome (List Peers)
  pub find_peers_at_random : ℕ → ℤ → (Peers → Bool) → Db → Outcome (List Peers)
  pub count_peers : (Peers → Bool) → Db → Outcome ℕ
  pub count_info_hashes : (Peers → Bool) → Db → Outcome ℕ
  pub save_peer : Peers → Action Db (Unit {0})
  pub delete_peers : (Peers → Bool) → Action Db (Unit {0})
  pub find_blocks : (BlockList → Bool) → Db → Outcome (List BlockList)
  pub create_block : BlockList → Action Db (Unit {0})

-- `last_seen > ?` of the time now less the TTL.
unfoldable pub is_valid : Config → ℕ → Peers → Bool
is_valid cfg now p = ltb now (p.last_seen + cfg.ttl * second)

unfoldable pub has_info_hash : Bytes → Peers → Bool
has_info_hash info_hash p = eq_bytes p.info_hash info_hash

-- The condition of PickPeers, which makes the info hash hexadecimal.
unfoldable pub is_picked : Config → ℕ → Bytes → Bytes → PeerType → Peers → Bool
unfolding is_valid has_info_hash hex_encode
is_picked cfg now current_peer_id info_hash_raw peer_type p =
    has_info_hash (hex_encode info_hash_raw) p
    && (not (eq_bytes p.peer_id current_peer_id)
        && (is_valid cfg now p && (not (eq_event p.event stopped) && eq_type p.type peer_type)))

-- The conditions of the four counts of a torrent.
unfoldable pub is_downloaded : Bytes → Peers → Bool
unfolding has_info_hash
is_downloaded info_hash p = has_info_hash info_hash p && eq_event p.event completed

unfoldable pub is_complete : Config → ℕ → Bytes → Peers → Bool
unfolding is_valid has_info_hash
is_complete cfg now info_hash p = has_info_hash info_hash p && (is_valid cfg now p && (p.left == 0))

unfoldable pub is_seeder : Config → ℕ → Bytes → Peers → Bool
unfolding is_complete
is_seeder cfg now info_hash p = is_complete cfg now info_hash p && not (eq_event p.event stopped)

unfoldable pub is_incomplete : Config → ℕ → Bytes → Peers → Bool
unfolding is_valid has_info_hash
is_incomplete cfg now info_hash p =
    has_info_hash info_hash p && (is_valid cfg now p && ltb 0 p.left)

-- What hex.DecodeString returns beside its error, too: the bytes before the first that is no digit.
unfoldable pub decode_string : Bytes → Bytes
unfolding hex_value
decode_string [] = []
decode_string (c ∷ []) = []
decode_string (c ∷ d ∷ rest) =
    let decoded = decode_string rest in
    elim (hex_value c) [
      | none ↦ []
      | some a ↦ elim (hex_value d) [ none ↦ [] | some b ↦ (a * 16 + b) ∷ decoded ]
    ]

-- CommonToDB; the key of a new row is 0.
unfoldable pub common_to_db : ℕ → Bytes → Peer → Peers
unfolding hex_encode
common_to_db now info_hash p = record {
  ip = p.ip;
  ipv4 = p.ipv4;
  ipv6 = p.ipv6;
  client_ip = p.client_ip;
  last_seen = p.last_seen;
  offers = p.offers;
  updated_at = now;
  info_hash = hex_encode info_hash;
  peer_id = hex_encode p.id;
  user_agent = p.user_agent;
  id = 0;
  port = p.port;
  left = p.left;
  uploaded = p.uploaded;
  downloaded = p.downloaded;
  type = p.type;
  source = p.source;
  event = p.event;
}

unfoldable pub db_to_common : Peers → Peer
unfolding decode_string
db_to_common p = record {
  ip = p.ip;
  ipv4 = p.ipv4;
  ipv6 = p.ipv6;
  client_ip = p.client_ip;
  last_seen = p.last_seen;
  offers = p.offers;
  id = decode_string p.peer_id;
  user_agent = p.user_agent;
  port = p.port;
  left = p.left;
  uploaded = p.uploaded;
  downloaded = p.downloaded;
  conn = none;
  type = p.type;
  event = p.event;
  source = p.source;
}
