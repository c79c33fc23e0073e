-- ===== src/Http/Tests.antt =====
-- Announces over HTTP at concrete values.
use trunker.Base.{◌≡◌, true, false, none, some, List, [], ◌∷◌, ◌++◌, replicate, filter}
use trunker.Base.Bytes.{Bytes}
use trunker.Base.Int.{pos, lt_ℕ, le_ℕ}
use trunker.Peer.{Peer, bittorrent, Source}
use trunker.Peer.Event.{started}
use trunker.Udp.Answer.{read_entries, reachable}
use trunker.Http.Bencode.{write_string}
use trunker.Http.Bencode.Read.{read_string, read_string-write_string}
use trunker.Http.Compact.{peers_to_compact}
use trunker.Http.Compact.Read.{has_no_v4, read-peers_to_compact}
use trunker.Http.Announce.{limit_num_want, limit_num_want_bounds}

abbrev peer : Bytes → Peer
peer ip = record {
  ip = none;
  ipv4 = none;
  ipv6 = none;
  client_ip = some ip;
  last_seen = 0;
  offers = [];
  id = [];
  user_agent = [];
  port = pos 6881;
  left = 0;
  uploaded = 0;
  downloaded = 0;
  conn = none;
  type = bittorrent;
  event = started;
  source = Source.http;
}

abbrev both : List Peer
both = peer (10 ∷ 0 ∷ 0 ∷ 1 ∷ []) ∷ peer (replicate 16 1) ∷ []

read-peers_to_compact_example :
    (read_entries 2 4 (peers_to_compact true both).0 ≡ reachable true false both)
    × (read_entries 2 16 (peers_to_compact true both).1
        ≡ reachable true true (filter (has_no_v4 true) both))
read-peers_to_compact_example = read-peers_to_compact true both

limit_num_want_bounds_example :
    (lt_ℕ (limit_num_want 200 (pos 300)) 1 ≡ false)
    × (le_ℕ (limit_num_want 200 (pos 300)) 500 ≡ true)
limit_num_want_bounds_example = limit_num_want_bounds 200 (pos 300)

read_string-write_string_example :
    read_string (write_string (1 ∷ 58 ∷ []) ++ (101 ∷ [])) ≡ some (1 ∷ 58 ∷ [], 101 ∷ [])
read_string-write_string_example = read_string-write_string (1 ∷ 58 ∷ []) (101 ∷ [])
