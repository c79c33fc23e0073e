-- ===== src/Local/Tests.antt =====
-- Torrents on the maps of `Mapx.SyncMap`.
use trunker.Base.{
  ℕ, zero, suc, ◌+◌, ◌-◌, ◌*◌, ◌/◌, ◌%◌, ◌^◌, ◌≤◌, ◌<◌, min, ◌≡◌, refl, sym, ap, ap₂, ◌∙◌, ◌≢◌, ◌↔◌,
  ◌⊎◌, inl, inr, Bool, true, false, not, ◌&&◌, ◌||◌, Option, none, some, List, [], ◌∷◌, ◌++◌, map,
  arith, ltb, leb, ◌==◌, if◌then◌else◌, ltb→lt, lt→ltb, leb→le, ==_iff, tests, Bool-cases,
  Option-cases, is_some, get_or_else, or_else, length, take, drop, replicate, All, filter, count,
  length-append, All-append, take-append, drop-append, filter_skip, filter_add, length-take,
  length-drop, count-append,
}
use trunker.Base.Bytes.{Bytes, codes, eq_bytes}
use trunker.Base.Int.{pos}
use trunker.Config.{Config, second}
use trunker.Request.{AnnounceRequest}
use trunker.Mapx.{SyncStringMap, IsMap}
use trunker.Mapx.SyncMap.Laws.{sync_string_map, sync_string_map-IsMap}
use trunker.Peer.{Peer, bittorrent, Source}
use trunker.Peer.Event.{started, eq_event, stopped}
use trunker.Local.Root.{InfoHashRoot, new_info_hash_root, load, load_or_store, delete, get_map, len}
use trunker.Local.Root.View.{load-delete}
use trunker.Local.Manager.{update_peer, is_expired, update, rotate, respond, peer_of}
use trunker.Local.Manager.Update.{IsSound, updated, load-update}
use trunker.Local.Manager.Rotate.{rotate_keeps_active}
use trunker.Local.Handlers.{Manager, Pending, put_root, first_seen, handle_announce_peer}
use trunker.Local.Scrape.{scrape}
use trunker.Local.Clean.{clean_root}
use trunker.Local.System.{State, new_local_manager, Reach, here, next, announce, run, run_pending}
use trunker.Local.System.Sound.{Reach-IsSound}
use trunker.Local.Respond.{is_selected, peers_in, respond-take}
use trunker.Local.Tally.{is_complete, is_seed, is_running_seed, is_live, scrape_counts}
use trunker.Local.Cleaned.{keep_live, clean_root_lem}
use trunker.Local.Capacity.{Rounds, none_yet, later, answer, add, Rounds-len-le}

abbrev Peers : SyncStringMap Peer
Peers = sync_string_map Peer

abbrev Roots : SyncStringMap (InfoHashRoot Peers)
Roots = sync_string_map (InfoHashRoot Peers)

abbrev peers_law : IsMap Peer Peers
peers_law = sync_string_map-IsMap Peer

abbrev roots_law : IsMap (InfoHashRoot Peers) Roots
roots_law = sync_string_map-IsMap (InfoHashRoot Peers)

abbrev cfg : Config
cfg = record {
  cache_enable = false;
  ttl = 10;
  use_announce_ip = true;
  enable_event_producer = true;
  max_peers_per_torrent = 4;
  tracker_id = [];
}

abbrev movie : Bytes
movie = codes "movie"

abbrev request_of : Bytes → ℕ → AnnounceRequest
request_of id left = record {
  client_ip = some (8 ∷ 8 ∷ 4 ∷ 4 ∷ []);
  info_hash = movie;
  peer_id = id;
  event = codes "started";
  user_agent = [];
  ip = [];
  ipv4 = [];
  ipv6 = [];
  port = pos 6881;
  uploaded = pos 0;
  downloaded = pos 0;
  left = pos left;
  num_want = pos 50;
  type = bittorrent;
  compact = pos 1;
  source = Source.http;
  offers = [];
  conn = none;
}

-- Peers as an announce at time `now` makes them.
abbrev peer : Bytes → ℕ → ℕ → Peer
peer id left now = record {
  ip = none;
  ipv4 = none;
  ipv6 = none;
  client_ip = some (8 ∷ 8 ∷ 4 ∷ 4 ∷ []);
  last_seen = now;
  offers = [];
  id = id;
  user_agent = [];
  port = pos 6881;
  left = left;
  uploaded = 0;
  downloaded = 0;
  conn = none;
  type = bittorrent;
  event = started;
  source = Source.http;
}

abbrev ann : Bytes
ann = codes "ann"

abbrev bob : Bytes
bob = codes "bob"

abbrev fresh_root : InfoHashRoot Peers
fresh_root = new_info_hash_root Peers movie 0 0

-- The torrent after the first announce, by `ann`.
abbrev ann_root : InfoHashRoot Peers
ann_root = first_seen cfg (peer_of 0 (request_of ann 0)) fresh_root

abbrev empty_system : State Peers Roots
empty_system = record { manager = new_local_manager Peers Roots; pending = [] }

abbrev announced : ℕ → AnnounceRequest → State Peers Roots → State Peers Roots
announced now req s = record {
  manager = (handle_announce_peer cfg now req s.manager).manager;
  pending = s.pending ++ (handle_announce_peer cfg now req s.manager).tasks;
}

-- Two announces have been answered, and `bob` waits to be stored.
abbrev waiting : State Peers Roots
waiting = announced 1 (request_of bob 9) (announced 0 (request_of ann 0) empty_system)

abbrev bob_task : Pending
bob_task = record {
  info_hash = movie;
  serial = 0;
  task = update_peer (peer_of 1 (request_of bob 9));
}

abbrev settled : State Peers Roots
settled = record { manager = run_pending cfg bob_task waiting.manager; pending = [] }

abbrev settled_root : InfoHashRoot Peers
settled_root = get_or_else (Roots.load movie settled.manager.info_hash_map) fresh_root

-- What has happened: the task waits, then the torrent holds both peers.
settled_run :
    (waiting.pending ≡ [] ++ (bob_task ∷ []))
    × (Roots.load movie settled.manager.info_hash_map ≡ some settled_root)
    × (map (λ p. p.id) (peers_in settled_root) ≡ ann ∷ bob ∷ [])
    × (is_some (Peers.load ann (get_map settled_root.current_active settled_root)) ≡ true)
unfolding trunker.Local.Handlers.handle_announce_peer new_local_manager sync_string_map
    trunker.Mapx.SyncMap.load trunker.Mapx.Entries.lookup run_pending
    trunker.Local.Manager.is_invalid_address peer_of trunker.Net.Parse.parse_ip
    trunker.Local.Handlers.find_or_add trunker.Mapx.SyncMap.load_or_store_lazy
    trunker.Mapx.SyncMap.new_sync_map put_root trunker.Mapx.SyncMap.store
    trunker.Mapx.Entries.insert eq_bytes eq_event trunker.Peer.Event.parse_peer_event respond
    trunker.Base.Int.eq_ℕ trunker.Base.Int.is_nonneg trunker.Base.Int.le_ℕ trunker.Base.Int.wrap
    trunker.Local.Handlers.callback_of first_seen trunker.Local.Manager.delete_all is_expired
    trunker.Local.Manager.is_reported trunker.Local.Manager.pick trunker.Local.Manager.refresh
    rotate trunker.Local.Manager.run_task update delete get_map trunker.Local.Root.load_and_delete
    load_or_store new_info_hash_root trunker.Local.Root.newer trunker.Local.Root.range
    trunker.Local.Root.set_map trunker.Local.Root.store trunker.Local.Root.visit
    trunker.Mapx.Entries.erase trunker.Mapx.SyncMap.delete trunker.Mapx.SyncMap.len
    trunker.Mapx.SyncMap.load_and_delete trunker.Mapx.SyncMap.load_or_store
    trunker.Mapx.SyncMap.range trunker.Net.Parse.hex_run trunker.Net.Parse.hex_val
    trunker.Net.Parse.v4_fields trunker.Net.Parse.v6_groups trunker.Net.is_loopback
    trunker.Net.is_private trunker.Net.private4 trunker.Net.private6 trunker.Net.to4
    trunker.Net.to4_bytes trunker.Peer.eq_type trunker.Peer.get_ip trunker.Peer.get_key
    trunker.Peer.is_peer_connectable
settled_run = (refl, refl, refl, refl)

settled-Reach : Reach cfg empty_system settled
settled-Reach =
    next (next (next here (announce 0 (request_of ann 0))) (announce 1 (request_of bob 9)))
      (run [] bob_task [] settled_run.0)

settled-IsSound : IsSound cfg settled_root
settled-IsSound =
    Reach-IsSound peers_law roots_law cfg settled settled-Reach movie settled_root settled_run.1

Reach-IsSound_example : IsSound cfg settled_root
Reach-IsSound_example =
    Reach-IsSound peers_law roots_law cfg settled settled-Reach movie settled_root settled_run.1

respond-take_example :
    (respond cfg 5 (request_of ann 0) (peer ann 0 5) settled_root).1
    ≡ take 50 (filter (is_selected cfg 5 (peer ann 0 5)) (peers_in settled_root))
respond-take_example = respond-take cfg 5 (request_of ann 0) (peer ann 0 5) settled_root

load-update_example : load bob (update cfg (peer bob 0 7) settled_root).0 ≡ (
    if eq_bytes bob bob
    then updated cfg (peer bob 0 7) (load bob settled_root)
    else load bob settled_root)
load-update_example = load-update peers_law cfg bob (peer bob 0 7) settled_root settled-IsSound

-- One more peer announces and is stored.
abbrev grown_root : InfoHashRoot Peers
grown_root =
    (update cfg (peer bob 9 1)
      (respond cfg 1 (request_of bob 9) (peer bob 9 1)
        (first_seen cfg (peer ann 0 0) fresh_root)).0).0

grown : Rounds cfg 1 (first_seen cfg (peer ann 0 0) fresh_root) grown_root 0
grown =
    later (later none_yet (answer 1 (request_of bob 9) (peer bob 9 1) _ 0 (omega arith)))
      (add (peer bob 9 1) _ 0)

Rounds-len-le_example : len grown_root ≤ 4 + 2 * 1
Rounds-len-le_example =
    Rounds-len-le peers_law cfg 1 (peer ann 0 0) movie 0 0 0 grown_root (omega arith) grown

-- 20 seconds after the start the record of `ann` and that of `bob` have expired.
abbrev later_on : ℕ
later_on = 20 * second

clean_root_lem_example :
    let early = ltb later_on (settled_root.last_clean + 10 * second) in
    (load ann (clean_root cfg later_on settled_root).0
      ≡ (if early then load ann settled_root else keep_live cfg later_on (load ann settled_root)))
    × ((clean_root cfg later_on settled_root).1
        ≡ (if early then 0 else count (is_expired cfg later_on) (peers_in settled_root)))
    × ((clean_root cfg later_on settled_root).0.last_clean
        ≡ (if early then settled_root.last_clean else later_on))
clean_root_lem_example = clean_root_lem cfg later_on peers_law ann settled_root settled-IsSound.tidy

scrape_counts_example :
    let f = (scrape cfg 5 none movie settled.manager).result in
    (f.complete ≡ count (is_complete cfg 5) (peers_in settled_root))
    × (f.downloaded ≡ count (is_seed cfg 5) (peers_in settled_root))
    × (f.seeder ≡ count (is_running_seed cfg 5) (peers_in settled_root))
    × (f.complete + f.incomplete ≡ count (is_live cfg 5) (peers_in settled_root))
scrape_counts_example =
    scrape_counts cfg 5 none movie settled.manager settled_root settled_run.1 refl

load-delete_example :
    load bob (delete ann settled_root).0
    ≡ (if eq_bytes ann bob then none else load bob settled_root)
load-delete_example = load-delete peers_law bob ann settled_root settled-IsSound.tidy

sync_string_map-IsMap_example : IsMap Peer (sync_string_map Peer)
sync_string_map-IsMap_example = sync_string_map-IsMap Peer

ann_active : Peers.load ann (get_map settled_root.current_active settled_root) ≢ none
ann_active e = ground (arith, e, settled_run.3)

rotate_keeps_active_example : load ann (rotate cfg settled_root) ≡ load ann settled_root
rotate_keeps_active_example =
    rotate_keeps_active peers_law cfg ann settled_root settled-IsSound.tidy ann_active
