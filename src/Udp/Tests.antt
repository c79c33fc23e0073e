-- ===== src/Udp/Tests.antt =====
-- Packets and a session at concrete values.
use trunker.Base.{
  ℕ, ◌+◌, ◌%◌, ◌^◌, ◌≡◌, ◌⊎◌, true, false, none, some, [], ◌∷◌, ◌++◌, arith, length, drop,
  replicate,
}
use trunker.Base.Bytes.{Bytes, put_be, get_be, slice, codes}
use trunker.Base.Int.{pos}
use trunker.Base.Equality.{nat_eq}
use trunker.Config.{Config}
use trunker.Request.{ScrapeFile}
use trunker.Peer.{Peer, bittorrent, Source}
use trunker.Peer.Event.{started}
use trunker.Mapx.SyncMap.{new_sync_map, load}
use trunker.Mapx.SyncMap.Laws.{IsCounted, new_sync_map-IsCounted, load_or_store-IsCounted}
use trunker.Tracker.{done, PeerManager}
use trunker.Udp.Parse.{protocol_id, action_announce}
use trunker.Udp.Connect.{Connections, register, clean_connection}
use trunker.Udp.Serve.{interval, announce_packet, handle_request}
use trunker.Udp.Packet.{Announce, put_announce}
use trunker.Udp.Answer.{reachable, read_entries, read-announce_packet}
use trunker.Udp.Expiry.{if_fresh, load-clean_connection}
use trunker.Udp.Session.{was_granted, connection_id, grant, start, request, served_lem}

abbrev packet : Bytes → Announce
packet ip = record {
  info_hash = replicate 20 7;
  peer_id = replicate 20 8;
  downloaded = 0;
  left = 2 ^ 63 + 5;
  uploaded = 1024;
  event = 2;
  ip = ip;
  key = 99;
  num_want = 50;
  port = 6881;
}

abbrev ip_v4 : Bytes
ip_v4 = 10 ∷ 0 ∷ 0 ∷ 1 ∷ []

abbrev cfg : Config
cfg = record {
  cache_enable = false;
  ttl = 1800;
  use_announce_ip = false;
  enable_event_producer = false;
  max_peers_per_torrent = 100;
  tracker_id = [];
}

abbrev peer : Bytes → Peer
peer ip = record {
  ip = none;
  ipv4 = none;
  ipv6 = none;
  client_ip = some ip;
  last_seen = 0;
  offers = [];
  id = [];
  user_agent = [];
  port = pos 6881;
  left = 0;
  uploaded = 0;
  downloaded = 0;
  conn = none;
  type = bittorrent;
  event = started;
  source = Source.udp;
}

abbrev counts : ScrapeFile
counts = record { seeder = 2; complete = 3; incomplete = 1; downloaded = 2 }

read-announce_packet_example :
    let ps = peer ip_v4 ∷ peer (replicate 16 1) ∷ [] in
    let answer = announce_packet cfg 150 false 77 counts ps in
    (get_be (slice 0 4 answer) ≡ action_announce)
    × (get_be (slice 4 8 answer) ≡ 77)
    × (get_be (slice 8 12 answer) ≡ interval cfg 150)
    × (get_be (slice 12 16 answer) ≡ 1 % 2 ^ 32)
    × (get_be (slice 16 20 answer) ≡ 2 % 2 ^ 32)
    × (read_entries (length ps) 4 (drop 20 answer) ≡ reachable false false ps)
read-announce_packet_example =
    read-announce_packet cfg 150 false 77 counts (peer ip_v4 ∷ peer (replicate 16 1) ∷ [])
      (omega arith)

abbrev home : Bytes
home = codes "10.0.0.1:6881"

abbrev known : Connections
known = register home 5 7 new_sync_map

known-IsCounted : IsCounted known
unfolding register
known-IsCounted = load_or_store-IsCounted 7 _ new_sync_map new_sync_map-IsCounted

load-clean_connection_example :
    load 7 (clean_connection 200_000_000_000 known) ≡ if_fresh 200_000_000_000 (load 7 known)
load-clean_connection_example = load-clean_connection 7 200_000_000_000 known known-IsCounted

-- A manager that counts the announces.
abbrev counter : PeerManager
counter = record {
  State = ℕ;
  handle_announce_peer = λ req s. (s + 1, done []);
  scrape = λ h s. (s, done counts);
}

abbrev connect : Bytes
connect = put_be 8 protocol_id ++ (put_be 4 0 ++ put_be 4 1)

abbrev announce : Bytes
announce = put_be 8 7 ++ (put_be 4 1 ++ (put_be 4 2 ++ put_announce (packet ip_v4) []))

-- `home` connects, and another address uses the id.
served_lem_example :
    let t = handle_request counter cfg 5 0 home (some ip_v4) (done 7) none connect new_sync_map 0 in
    let u =
      handle_request counter cfg 6 0
        (codes "10.0.0.2:1")
        (some ip_v4)
        (done 8)
        none
        announce
        t.connections
        t.state in
    (was_granted (codes "10.0.0.2:1") (connection_id announce) (grant home (done 7) connect ++ [])
      ≡ true)
    ⊎ ((u.state ≡ t.state) × ((u.context ≡ none) ⊎ (u.context ≡ some (codes "connection"))))
served_lem_example =
    served_lem counter cfg 6 0 (codes "10.0.0.2:1") (some ip_v4) (done 8) none announce _ _ _
      (request cfg 5 0 home (some ip_v4) (done 7) none connect (start 0))
