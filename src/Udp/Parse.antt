-- ===== src/Udp/Parse.antt =====
-- biz/services/udp_server/parse.go.
use trunker.Base.{ℕ, none, some, [], ◌++◌, if◌then◌else◌}
use trunker.Base.Bytes.{Bytes, put_be, get_be, slice}
use trunker.Base.Int.{pos, signed64}
use trunker.Net.Print.{ip_string}
use trunker.Peer.{bittorrent, Source}
use trunker.Peer.Event.{PeerEvent, unknown, started, eq_event, peer_event, to_string}
use trunker.Request.{AnnounceRequest}

abbrev pub protocol_id : ℕ
protocol_id = 0x41727101980

abbrev pub action_connect : ℕ
action_connect = 0

abbrev pub action_announce : ℕ
action_announce = 1

abbrev pub action_scrape : ℕ
action_scrape = 2

abbrev pub action_error : ℕ
action_error = 3

-- The event field: some clients do not send one.
unfoldable pub event_of : ℕ → PeerEvent
event_of n = if eq_event (peer_event n) unknown then started else peer_event n

-- `&model.AnnounceRequest{}`.
abbrev pub empty_request : AnnounceRequest
empty_request = record {
  client_ip = none;
  info_hash = [];
  peer_id = [];
  event = [];
  user_agent = [];
  ip = [];
  ipv4 = [];
  ipv6 = [];
  port = pos 0;
  uploaded = pos 0;
  downloaded = pos 0;
  left = pos 0;
  num_want = pos 0;
  type = bittorrent;
  compact = pos 0;
  source = Source.http;
  offers = [];
  conn = none;
}

-- The fields that both forms of the packet have in the same place.
abbrev common_fields : Bytes → AnnounceRequest
common_fields buf = record empty_request {
  info_hash = slice 0 20 buf;
  peer_id = slice 20 40 buf;
  downloaded = signed64 (get_be (slice 40 48 buf));
  left = signed64 (get_be (slice 48 56 buf));
  uploaded = signed64 (get_be (slice 56 64 buf));
  event = to_string (event_of (get_be (slice 64 68 buf)));
}

-- The callers check that `buf` has 82 bytes at least; a slice is not out of range.
unfoldable pub parse_announce_request_v4 : Bytes → AnnounceRequest
parse_announce_request_v4 buf = record (common_fields buf) {
  ipv4 = ip_string (some (slice 68 72 buf));
  num_want = pos (get_be (slice 76 80 buf));
  port = pos (get_be (slice 80 82 buf));
}

-- The caller checks that `buf` has 94 bytes at least.
unfoldable pub parse_announce_request_v6 : Bytes → AnnounceRequest
parse_announce_request_v6 buf = record (common_fields buf) {
  ipv6 = ip_string (some (slice 68 84 buf));
  num_want = pos (get_be (slice 88 92 buf));
  port = pos (get_be (slice 92 94 buf));
}

unfoldable pub write_header : ℕ → ℕ → Bytes
unfolding put_be
write_header action tid = put_be 4 action ++ put_be 4 tid
