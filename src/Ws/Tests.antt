-- ===== src/Ws/Tests.antt =====
-- A websocket client that announces itself, is found, and leaves.
use trunker.Base.{
  ℕ, zero, suc, ◌+◌, ◌-◌, ◌*◌, ◌/◌, ◌%◌, ◌^◌, ◌≤◌, ◌<◌, min, ◌≡◌, refl, sym, ap, ap₂, ◌∙◌, ◌≢◌, ◌↔◌,
  ◌⊎◌, inl, inr, Bool, true, false, not, ◌&&◌, ◌||◌, Option, none, some, List, [], ◌∷◌, ◌++◌, map,
  arith, ltb, leb, ◌==◌, if◌then◌else◌, ltb→lt, lt→ltb, leb→le, ==_iff, tests, Bool-cases,
  Option-cases, is_some, get_or_else, or_else, length, take, drop, replicate, All, filter, count,
  length-append, All-append, take-append, drop-append, filter_skip, filter_add, length-take,
  length-drop, count-append,
}
use trunker.Base.Bytes.{Bytes, codes}
use trunker.Base.Int.{pos}
use trunker.Mapx.{SyncStringMap}
use trunker.Mapx.SyncMap.Laws.{sync_string_map, sync_string_map-IsMap}
use trunker.Net.Parse.{parse_ip}
use trunker.Peer.{Peer, webtorrent, Source}
use trunker.Peer.Event.{stopped, eq_event, parse_peer_event}
use trunker.Request.{AnnounceRequest}
use trunker.Tracker.{done, failed}
use trunker.Local.Manager.{is_invalid_address}
use trunker.Local.Respond.{wanted, values}
use trunker.Ws.{Root, Manager, peer_of, get_conn, close}
use trunker.Ws.Handlers.{handle_announce_peer, answer_to_peer}
use trunker.Ws.Closed.{run_all, answer_to_peer-close}
use trunker.Ws.Picked.{is_reachable, handle_announce_peer-take}

abbrev Peers : SyncStringMap Peer
Peers = sync_string_map Peer

abbrev Roots : SyncStringMap (Root Peers)
Roots = sync_string_map (Root Peers)

abbrev request : Bytes → ℕ → AnnounceRequest
request id c = record {
  client_ip = some (8 ∷ 8 ∷ 4 ∷ 4 ∷ []);
  info_hash = 7 ∷ [];
  peer_id = id;
  event = codes "started";
  user_agent = [];
  ip = [];
  ipv4 = [];
  ipv6 = [];
  port = pos 0;
  uploaded = pos 0;
  downloaded = pos 0;
  left = pos 1;
  num_want = pos 50;
  type = webtorrent;
  compact = pos 0;
  source = Source.ws;
  offers = [];
  conn = some c;
}

abbrev root : Root Peers
root = record {
  info_hash = 7 ∷ [];
  peer_map = Peers.store (1 ∷ []) (peer_of 0 (request (1 ∷ []) 5)) Peers.new;
}

abbrev one_client : Manager Peers Roots
one_client = record { info_hash_map = Roots.store (7 ∷ []) root Roots.new; conns = [] }

known : Roots.load (7 ∷ []) one_client.info_hash_map ≡ some root
unfolding trunker.Base.Bytes.eq_bytes
known = (sync_string_map-IsMap (Root Peers)).load-store (7 ∷ []) (7 ∷ []) root Roots.new

valid : is_invalid_address (peer_of 3 (request (2 ∷ []) 6)) ≡ false
unfolding is_invalid_address peer_of parse_ip
valid = refl

alive : (get_conn 6 one_client).closed ≡ false
unfolding get_conn
alive = refl

runs : eq_event (peer_of 3 (request (2 ∷ []) 6)).event stopped ≡ false
unfolding eq_event peer_of parse_peer_event trunker.Base.Bytes.eq_bytes
runs = refl

answer_to_peer-close_example :
    let r = handle_announce_peer 3 (request (2 ∷ []) 6) one_client in
    let left = close 6 (run_all r.tasks (7 ∷ []) r.manager) in
    answer_to_peer (λ c. none) (7 ∷ []) (2 ∷ []) left ≡ (left, failed (codes "peer not found"))
answer_to_peer-close_example =
    answer_to_peer-close (sync_string_map-IsMap Peer) (sync_string_map-IsMap (Root Peers)) 6 3
      (request (2 ∷ []) 6) one_client refl alive valid runs (λ c. none)

handle_announce_peer-take_example :
    (handle_announce_peer 3 (request (2 ∷ []) 6) one_client).result
    ≡ done (
        take (wanted (pos 50)) (
          filter
            (is_reachable (peer_of 3 (request (2 ∷ []) 6)))
            (values (Peers.entries root.peer_map))))
handle_announce_peer-take_example =
    handle_announce_peer-take (sync_string_map-IsMap (Root Peers)) 6 3 (request (2 ∷ []) 6)
      one_client root refl known valid runs
