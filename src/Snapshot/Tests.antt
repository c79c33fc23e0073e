-- ===== src/Snapshot/Tests.antt =====
-- One shard with two peers through its file.
use trunker.Base.{
  ℕ, zero, suc, ◌+◌, ◌-◌, ◌*◌, ◌/◌, ◌%◌, ◌^◌, ◌≤◌, ◌<◌, min, ◌≡◌, refl, sym, ap, ap₂, ◌∙◌, ◌≢◌, ◌↔◌,
  ◌⊎◌, inl, inr, Bool, true, false, not, ◌&&◌, ◌||◌, Option, none, some, List, [], ◌∷◌, ◌++◌, map,
  arith, ltb, leb, ◌==◌, if◌then◌else◌, ltb→lt, lt→ltb, leb→le, ==_iff, tests, Bool-cases,
  Option-cases, is_some, get_or_else, or_else, length, take, drop, replicate, All, filter, count,
  length-append, All-append, take-append, drop-append, filter_skip, filter_add, length-take,
  length-drop, count-append,
}
use mathlib.Core.List.{Perm}
use mathlib.Core.List.Perm
use trunker.Base.Bytes.{Bytes, codes}
use trunker.Base.Int.{pos}
use trunker.Config.{Config}
use trunker.Mapx.{SyncStringMap}
use trunker.Mapx.SyncMap.Laws.{sync_string_map, sync_string_map-IsMap}
use trunker.Peer.{Peer, bittorrent, Source}
use trunker.Peer.Event.{started}
use trunker.Ban.IpFilter.{fallback_ip_filter, new_fallback_ip_filter}
use trunker.Ban.Item.{Bloom}
use trunker.Ban.Kept.{has}
use native.Mathlib.Decide.{ℕ_discrete}
use trunker.Local.Handlers.{Manager, direct_store}
use trunker.Local.System.{new_local_manager}
use trunker.Local.Root.{InfoHashRoot}
use trunker.Mux.{MuxLocalManager, new_mux_local_manager}
use trunker.Rpc.{peer_common_to_idl}
use trunker.Snapshot.{
  Store, Codec, shard_file, load_file, out_of_fuel, write_shard, store_to_persist,
  load_from_persist,
}
use trunker.Snapshot.Loaded.{received, IsCodec, IsStorable}
use trunker.Snapshot.Loaded.{whole_frames}
use trunker.Snapshot.Found.{latest, find}
use trunker.Snapshot.Written.{stores_of_shard, load_file-write_shard_cut}
use trunker.Snapshot.Restart.{stores_of_shards, load_from_persist-store_to_persist}
use trunker.Snapshot.Ends.{load_file_ends}

abbrev Peers : SyncStringMap Peer
Peers = sync_string_map Peer

abbrev Roots : SyncStringMap (InfoHashRoot Peers)
Roots = sync_string_map (InfoHashRoot Peers)

abbrev exact : Bloom
exact = record { Filter = List Bytes; new = λ n. []; add = λ k f. k ∷ f; test = has }

abbrev uint64 : ℕ → ℕ
uint64 n = n % 2 ^ 64

abbrev cfg : Config
cfg = record {
  cache_enable = false;
  ttl = 10;
  use_announce_ip = true;
  enable_event_producer = true;
  max_peers_per_torrent = 4;
  tracker_id = [];
}

abbrev peer : Peer
peer = record {
  ip = none;
  ipv4 = none;
  ipv6 = none;
  client_ip = some (8 ∷ 8 ∷ 4 ∷ 4 ∷ []);
  last_seen = 0;
  offers = [];
  id = codes "p";
  user_agent = [];
  port = pos 6881;
  left = 1;
  uploaded = 0;
  downloaded = 0;
  conn = none;
  type = bittorrent;
  event = started;
  source = Source.http;
}

abbrev worker : Manager Peers Roots
worker = direct_store (7 ∷ []) 0 peer (new_local_manager Peers Roots)

abbrev empty : MuxLocalManager Peers Roots exact fallback_ip_filter
empty =
    new_mux_local_manager Peers Roots exact fallback_ip_filter 2 new_fallback_ip_filter
      (record { lines = []; partial = [] }) (record { lines = []; partial = [] })

abbrev tracker : MuxLocalManager Peers Roots exact fallback_ip_filter
tracker = record empty { local_list = worker ∷ [] }

abbrev the_store : Store
the_store = record { info_hash = 7 ∷ []; peer = peer_common_to_idl peer }

Store-discrete : Discrete Store
Store-discrete = hlevel ℕ_discrete

-- A codec that knows one Store.
abbrev codec : Codec
codec = record {
  encode = λ s. elim (Store-discrete s the_store) [ yes e ↦ some (42 ∷ []) | no n ↦ none ];
  compress = some;
  decompress = λ n c. if leb (length c) n then some c else none;
  decode = λ raw. some the_store;
  empty_bytes = none;
}

decided :
    (s : Store) (d : Dec (s ≡ the_store)) (raw : Bytes)
    → elim d as (λ x. Option Bytes) [ yes e ↦ some (42 ∷ []) | no n ↦ none ] ≡ some raw
    → some the_store ≡ some (received codec s)
unfolding received trunker.Rpc.received_peer trunker.Rpc.received_bytes peer_common_to_idl
decided s (yes e) raw h = ap (λ t. some (received codec t)) (sym e)
decided s (no n) raw h = ground (arith, h)

codec-IsCodec : IsCodec codec
codec-IsCodec = record {
  decode-encode = λ s raw e. decided s (Store-discrete s the_store) raw e;
  decompress-compress = λ n raw c e h. ground (arith, e, h);
}

known :
    (d : Dec (the_store ≡ the_store))
    → elim d as (λ x. Option Bytes) [ yes e ↦ some (42 ∷ []) | no n ↦ none ] ≡ some (42 ∷ [])
known (yes e) = refl
known (no n) = absurd (n refl)

storable : IsStorable codec 512 the_store
storable = record {
  raw = 42 ∷ [];
  frame = 42 ∷ [];
  encode_eq = known (Store-discrete the_store the_store);
  compress_eq = refl;
  raw_le = omega arith;
  frame_pos = omega arith;
  frame_le = omega arith;
}

one_peer : stores_of_shard worker ≡ the_store ∷ []
unfolding stores_of_shard new_local_manager direct_store sync_string_map trunker.Mapx.SyncMap.range
    trunker.Mapx.SyncMap.store trunker.Mapx.Entries.lookup trunker.Mapx.SyncMap.load_or_store_lazy
    trunker.Mapx.SyncMap.new_sync_map trunker.Mapx.Entries.insert trunker.Base.Bytes.eq_bytes
    trunker.Local.Root.store trunker.Local.Root.new_info_hash_root
one_peer = refl

worker-IsStorable : All (IsStorable codec 512) (stores_of_shard worker)
worker-IsStorable = rw one_peer (storable, tt)

tracker-IsStorable : All (IsStorable codec 512) (stores_of_shards tracker.local_list)
unfolding stores_of_shards
tracker-IsStorable = rw one_peer (storable, tt)

load_from_persist-store_to_persist_example :
    let files = map (shard_file codec) (worker ∷ []) in
    Perm files (store_to_persist codec true tracker [])
    × ((m : MuxLocalManager Peers Roots exact fallback_ip_filter) × (load_from_persist codec 512
            uint64 true cfg 0 files empty
          ≡ some (m, []))
        × ((hash key : Bytes)
            → find uint64 hash key m
              ≡ latest none cfg 0 hash key
                  (stores_of_shards (worker ∷ []))
                  (find uint64 hash key empty)))
unfolding new_mux_local_manager
load_from_persist-store_to_persist_example =
    load_from_persist-store_to_persist codec codec-IsCodec 512 (omega arith) uint64 cfg 0
      (sync_string_map-IsMap Peer) (sync_string_map-IsMap (InfoHashRoot Peers)) tracker empty
      (worker ∷ []) (Perm.refl (worker ∷ [])) (omega arith) tracker-IsStorable

-- The peer is found after the restart.
the_peer : latest none cfg 0 (7 ∷ []) (codes "p") (the_store ∷ []) none ≡ some peer
unfolding latest peer_common_to_idl trunker.Base.Bytes.eq_bytes trunker.Rpc.peer_idl_to_common
    trunker.Rpc.received_peer
the_peer = refl

load_file-write_shard_cut_example :
    find uint64
      (7 ∷ [])
      (codes "p")
      (load_file codec 512 uint64 cfg 0 (take 3 (write_shard codec worker)) empty).0
    ≡ latest none cfg 0
        (7 ∷ [])
        (codes "p")
        (take (whole_frames codec 3 (stores_of_shard worker)) (stores_of_shard worker))
        (find uint64 (7 ∷ []) (codes "p") empty)
unfolding new_mux_local_manager
load_file-write_shard_cut_example =
    load_file-write_shard_cut (sync_string_map-IsMap Peer)
      (sync_string_map-IsMap (InfoHashRoot Peers)) codec codec-IsCodec 512 (omega arith) uint64 cfg
      0 worker 3 empty (omega arith) worker-IsStorable (7 ∷ []) (codes "p")

load_file_ends_example : (load_file codec 512 uint64 cfg 0 (9 ∷ 9 ∷ []) empty).1 ≢ out_of_fuel
load_file_ends_example = load_file_ends codec 512 uint64 cfg 0 (9 ∷ 9 ∷ []) empty
