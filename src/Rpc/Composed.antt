-- ===== src/Rpc/Composed.antt =====
-- A server that calls another one, over the transport.
use trunker.Base.{◌*◌, ◌/◌, ◌^◌, ◌<◌, none, List, All}
use trunker.Base.Bytes.{Bytes}
use trunker.Base.Equality.{bytes_eq}
use trunker.Config.{second}
use trunker.Local.Scrape.{Statistic}
use trunker.Request.{AnnounceRequest}
use trunker.Peer.{Peer}
use trunker.Peer.Event.{PeerEvent}
use trunker.Net.{IpAddr}
use trunker.Rpc.{received_bytes}
use trunker.Rpc.Transport.{transport}
use trunker.Rpc.Peers.{IsPeer}
use trunker.Rpc.Requests.{carried_request}
use trunker.Rpc.Server.{TrunkerService, new_trunker_service_impl}
use trunker.Rpc.Client.{new_manager}
use trunker.Rpc.Client as Client
use trunker.Rpc.Server as Server
use trunker.Tracker.{Outcome, done, failed, AdminManager, StatisticInfo}

-- A peer as it comes from a call: with the time in whole seconds, without a connection, and with the
-- addresses that the library makes of missing and of empty ones.
unfoldable pub sent_peer : IpAddr → Peer → Peer
unfolding received_bytes
sent_peer empty p = record p {
  ip = received_bytes empty p.ip;
  ipv4 = received_bytes empty p.ipv4;
  ipv6 = received_bytes empty p.ipv6;
  client_ip = received_bytes empty p.client_ip;
  last_seen = p.last_seen / second * second;
  conn = none;
}

-- The request as the manager behind a call gets it.
unfoldable pub sent_request : IpAddr → (PeerEvent → Bytes) → AnnounceRequest → AnnounceRequest
unfolding received_bytes carried_request
sent_request empty event_string req = record (carried_request event_string req) {
  client_ip = received_bytes empty req.client_ip;
}

abbrev pub ArePeers : Outcome (List Peer) → Type 0
ArePeers (done peers) = All IsPeer peers
ArePeers (failed e) = Unit

-- The counts of uint64 fields.
abbrev pub AreCounts : Outcome StatisticInfo → Type 0
AreCounts (done v) =
    (v.total_peers < 2 ^ 64)
    × (v.total_torrents < 2 ^ 64)
    × All (λ (x : Bytes × Statistic). (x.1.total_peers < 2 ^ 64) × (x.1.total_torrents < 2 ^ 64))
        v.shards
AreCounts (failed e) = Unit

module _ (wrap_error : Bytes → Bytes) (empty : IpAddr) (event_string : PeerEvent → Bytes)
    (m : AdminManager) where
  abbrev client : AdminManager
  client = new_manager (transport wrap_error empty (new_trunker_service_impl event_string m))
