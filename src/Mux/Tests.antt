-- ===== src/Mux/Tests.antt =====
-- Two shards, with a banned torrent.
use trunker.Base.{
  ℕ, ◌%◌, ◌^◌, ◌≡◌, refl, ◌≢◌, ◌⊎◌, true, false, none, some, List, [], ◌∷◌, arith, replicate,
}
use trunker.Base.Bytes.{Bytes, codes, eq_bytes}
use trunker.Base.Int.{pos}
use trunker.Config.{Config}
use trunker.Mapx.{SyncStringMap}
use trunker.Mapx.SyncMap.Laws.{sync_string_map}
use trunker.Peer.{Peer, bittorrent, Source}
use trunker.Request.{AnnounceRequest}
use trunker.Ban.{test_ban}
use trunker.Ban.IpFilter.{fallback_ip_filter, new_fallback_ip_filter}
use trunker.Ban.Item.{Bloom, read_ban, add_keys, new_ban_item}
use trunker.Ban.Item
use trunker.Ban.Kept.{has}
use trunker.Local.Root.{InfoHashRoot}
use trunker.Mux.{MuxLocalManager, new_mux_local_manager, get_at, pick_worker, handle_announce_peer}
use trunker.Mux.Announce.{
  is_banned, is_refused, handle_announce_peer_banned, handle_announce_peer_others,
}

abbrev Peers : SyncStringMap Peer
Peers = sync_string_map Peer

abbrev Roots : SyncStringMap (InfoHashRoot Peers)
Roots = sync_string_map (InfoHashRoot Peers)

abbrev exact : Bloom
exact = record { Filter = List Bytes; new = λ n. []; add = λ k f. k ∷ f; test = has }

abbrev uint64 : ℕ → ℕ
uint64 n = n % 2 ^ 64

abbrev cfg : Config
cfg = record {
  cache_enable = false;
  ttl = 10;
  use_announce_ip = true;
  enable_event_producer = true;
  max_peers_per_torrent = 4;
  tracker_id = [];
}

abbrev request : ℕ → AnnounceRequest
request hash = record {
  client_ip = some (8 ∷ 8 ∷ 4 ∷ 4 ∷ []);
  info_hash = replicate 20 hash;
  peer_id = replicate 20 65;
  event = codes "started";
  user_agent = [];
  ip = [];
  ipv4 = [];
  ipv6 = [];
  port = pos 6881;
  uploaded = pos 0;
  downloaded = pos 0;
  left = pos 1;
  num_want = pos 50;
  type = bittorrent;
  compact = pos 1;
  source = Source.http;
  offers = [];
  conn = none;
}

-- The file bans the torrent whose bytes are all 0x11.
abbrev tracker : MuxLocalManager Peers Roots exact fallback_ip_filter
tracker =
    new_mux_local_manager Peers Roots exact fallback_ip_filter 2 new_fallback_ip_filter
      (record { lines = replicate 40 49 ∷ []; partial = [] }) (record { lines = []; partial = [] })

banned : is_banned (request 0x11) tracker.ban ≡ true
unfolding new_mux_local_manager test_ban Item.test has eq_bytes
banned = refl

elsewhere : pick_worker uint64 (replicate 20 0x13) tracker ≢ 0
unfolding new_mux_local_manager pick_worker
elsewhere e = ground (arith, e)

handle_announce_peer_banned_example :
    let r = handle_announce_peer uint64 cfg 0 (request 0x11) tracker in
    (r.manager ≡ tracker) × (r.tasks ≡ []) × (r.effects ≡ []) × (is_refused r.result ≡ true)
handle_announce_peer_banned_example =
    handle_announce_peer_banned uint64 cfg 0 (request 0x11) tracker banned

handle_announce_peer_others_example :
    let r = handle_announce_peer uint64 cfg 0 (request 0x13) tracker in
    (get_at 0 r.manager.local_list ≡ get_at 0 tracker.local_list)
    × (r.manager.ban ≡ tracker.ban)
    × ((r.shard ≡ pick_worker uint64 (request 0x13).info_hash tracker) ⊎ (r.tasks ≡ []))
handle_announce_peer_others_example =
    handle_announce_peer_others uint64 cfg 0 (request 0x13) tracker 0 elsewhere
