-- ===== src/Peer/Tests.antt =====
-- Events at concrete values.
use trunker.Base.{◌≡◌}
use trunker.Peer.Event.{stopped, parse_peer_event, to_string, parse_peer_event-to_string}

parse_peer_event-to_string_example : parse_peer_event (to_string stopped) ≡ stopped
parse_peer_event-to_string_example = parse_peer_event-to_string stopped
