-- ===== src/Rpc/Tests.antt =====
-- A peer through a call at concrete values.
use trunker.Base.{◌-◌, ◌*◌, ◌/◌, ◌^◌, ◌≡◌, refl, none, some, List, [], ◌∷◌, ◌++◌, arith}
use trunker.Base.Int.{pos}
use trunker.Base.Bytes.{Bytes, codes}
use trunker.Request.{AnnounceRequest}
use trunker.Tracker.{AdminManager, done, failed}
use trunker.Net.{IpAddr}
use trunker.Config.{second}
use trunker.Peer.{Peer, bittorrent, Source}
use trunker.Peer.Event.{started}
use trunker.Rpc.{peer_common_to_idl, peer_idl_to_common}
use trunker.Rpc.Peers.{IsPeer, peer_idl_to_common-peer_common_to_idl}

abbrev peer : Peer
peer = record {
  ip = none;
  ipv4 = none;
  ipv6 = none;
  client_ip = some (8 ∷ 8 ∷ 4 ∷ 4 ∷ []);
  last_seen = 1_500_000_000;
  offers = [];
  id = [];
  user_agent = [];
  port = pos 6881;
  left = 2 ^ 64 - 1;
  uploaded = 7;
  downloaded = 0;
  conn = some 3;
  type = bittorrent;
  event = started;
  source = Source.udp;
}

peer-IsPeer : IsPeer peer
peer-IsPeer = record {
  port_number = 6881;
  port_lt = omega arith;
  has_port = refl;
  left_lt = omega arith;
  uploaded_lt = omega arith;
  downloaded_lt = omega arith;
}

peer_idl_to_common-peer_common_to_idl_example :
    peer_idl_to_common (peer_common_to_idl peer)
    ≡ record peer { last_seen = 1_500_000_000 / second * second; conn = none }
peer_idl_to_common-peer_common_to_idl_example =
    peer_idl_to_common-peer_common_to_idl peer peer-IsPeer

-- A manager that answers with one peer and keeps the torrents that are banned.
abbrev one_peer : AdminManager
one_peer = record {
  State = List Bytes;
  handle_announce_peer = λ req s. (s, done (peer ∷ []));
  scrape =
      λ hash s. (s, done (record { seeder = 1; complete = 1; incomplete = 0; downloaded = 1 }));
  get_statistic = λ s. (s, done (record { total_peers = 1; total_torrents = 1; shards = [] }));
  ban_info_hash = λ hash s. (hash ∷ s, done tt);
  ban_peer = λ id s. (s, failed []);
  clear_ban_info_hash = λ s. [];
  clear_ban_peer = λ s. s;
  get_peers = λ hash s. (s, done (peer ∷ []));
  delete_info_hash = λ hash s. (s, done tt);
  ban_ip = λ ip s. (s, done tt);
  unban_ip = λ ip s. (s, done tt);
  clear_ban_ip = λ s. (s, done tt);
  get_ip_filter_stats = λ s. none;
}

abbrev request : AnnounceRequest
request = record {
  client_ip = some (8 ∷ 8 ∷ 4 ∷ 4 ∷ []);
  info_hash = 7 ∷ [];
  peer_id = 8 ∷ [];
  event = codes "started";
  user_agent = codes "curl";
  ip = [];
  ipv4 = [];
  ipv6 = [];
  port = pos 6881;
  uploaded = pos 0;
  downloaded = pos 0;
  left = pos 1;
  num_want = pos 50;
  type = bittorrent;
  compact = pos 1;
  source = Source.http;
  offers = [];
  conn = none;
}

-- Empty addresses are read as empty, and errors have a prefix.
abbrev empty : IpAddr
empty = some []

abbrev wrap_error : Bytes → Bytes
wrap_error e = codes "remote: " ++ e
