-- ===== src/Database/Tests.antt =====
-- The database manager on a database in memory.
use trunker.Base.{
  ℕ, ◌≤◌, ◌≡◌, refl, ap, inl, inr, Bool, true, false, ◌&&◌, none, some, List, [], ◌∷◌, map, arith,
  ltb, if◌then◌else◌, Bool-cases, length, All, filter,
}
use mathlib.Core.Path.{subst}
use trunker.Base.Bytes.{Bytes, IsByte, codes, eq_bytes, eq_bytes_refl}
use trunker.Base.Int.{ℤ, pos, negsuc}
use trunker.Net.Parse.{parse_ip}
use trunker.Config.{Config}
use trunker.Request.{AnnounceRequest}
use trunker.Peer.{Peer, bittorrent, Source, eq_type}
use trunker.Peer.Event.{started, eq_event}
use trunker.Tracker.{Outcome, done, failed}
use trunker.Ban.Hex.{hex_encode}
use trunker.Ban.Item.{Bloom, IsBloom}
use trunker.Ban.Kept.{has}
use trunker.Database.{
  Gorm, Peers, BlockList, BlockType, block_type_info_hash, block_type_peer_id, eq_block_type,
  common_to_db, db_to_common,
}
use trunker.Database.Adaptor.{db_to_common-common_to_db}
use trunker.Database.Manager.{DbManager, ban_info_hash, handle_announce_peer, new_db_manager}
use trunker.Database.Picked.{Answers, IsFind, is_given, handle_announce_peer-Answers}
use trunker.Database.Restored.{of_type, IsGorm, new_db_manager-ban_info_hash}

abbrev exact : Bloom
exact = record { Filter = List Bytes; new = λ n. []; add = λ k f. k ∷ f; test = has }

exact-IsBloom : IsBloom exact
unfolding has
exact-IsBloom = record {
  test-add = λ k f. ground (arith, eq_bytes_refl k);
  test-add_other = λ j k f h. ground (arith, h);
}

-- A database that keeps the rows of its block list, the newest first, and no peers.
abbrev blocks_only : Gorm
blocks_only = record {
  Db = List BlockList;
  find_peers = λ p db. done [];
  find_peers_at_random = λ seed n p db. done [];
  count_peers = λ p db. done 0;
  count_info_hashes = λ p db. done 0;
  save_peer = λ p db. (db, done tt);
  delete_peers = λ p db. (db, done tt);
  find_blocks = λ p db. done (filter p db);
  create_block = λ b db. (b ∷ db, done tt);
}

eq_block_type_refl : (type : BlockType) → eq_block_type type type ≡ true
unfolding eq_block_type
eq_block_type_refl block_type_info_hash = refl
eq_block_type_refl block_type_peer_id = refl

abbrev done_rows : List BlockList → Outcome (List BlockList) → List BlockList
done_rows other (done bs) = bs
done_rows other (failed e) = other

blocks_only-IsGorm : IsGorm blocks_only
unfolding has
blocks_only-IsGorm = record { find-create = found }
  where
    found :
        (b : BlockList) (db bs : List BlockList)
        → (blocks_only.create_block b db).1 ≡ done tt
        → done (filter (of_type b.type) (b ∷ db)) ≡ done bs
        → has b.target (map (λ r. r.target) bs) ≡ true
    found b db bs a h =
        subst (λ rs. has b.target (map (λ r. r.target) rs) ≡ true) (ap (done_rows []) h)
          (ground (arith, eq_block_type_refl b.type, eq_bytes_refl b.target))

abbrev cfg : Config
cfg = record {
  cache_enable = true;
  ttl = 3_600;
  use_announce_ip = false;
  enable_event_producer = false;
  max_peers_per_torrent = 100;
  tracker_id = codes "t";
}

abbrev request : AnnounceRequest
request = record {
  client_ip = some (8 ∷ 8 ∷ 4 ∷ 4 ∷ []);
  info_hash = 200 ∷ 1 ∷ [];
  peer_id = 7 ∷ [];
  event = codes "started";
  user_agent = [];
  ip = [];
  ipv4 = [];
  ipv6 = [];
  port = pos 6881;
  uploaded = pos 0;
  downloaded = pos 0;
  left = pos 10;
  num_want = pos 5;
  type = bittorrent;
  compact = pos 1;
  source = Source.udp;
  offers = [];
  conn = none;
}

abbrev empty_manager : DbManager blocks_only exact
empty_manager = new_db_manager []

abbrev banned_row : BlockList
banned_row = record {
  target = hex_encode request.info_hash;
  type = block_type_info_hash;
  created_at = 3;
}

request-bytes : All IsByte request.info_hash
request-bytes = ground arith

new_db_manager-ban_info_hash_example :
    let told = (ban_info_hash 3 request.info_hash empty_manager).0 in
    let made : DbManager blocks_only exact = new_db_manager told.db in
    (handle_announce_peer cfg 5 0 request told ≡ (told, failed (codes "banned")))
    × (handle_announce_peer cfg 5 0 request made ≡ (made, failed (codes "banned")))
unfolding ban_info_hash new_db_manager
new_db_manager-ban_info_hash_example =
    new_db_manager-ban_info_hash exact-IsBloom blocks_only-IsGorm cfg 3 5 0 request empty_manager
      (banned_row ∷ []) request-bytes refl refl

abbrev peer : Peer
peer = record {
  ip = none;
  ipv4 = none;
  ipv6 = none;
  client_ip = some (8 ∷ 8 ∷ 4 ∷ 4 ∷ []);
  last_seen = 15;
  offers = [];
  id = 254 ∷ 1 ∷ [];
  user_agent = [];
  port = pos 6881;
  left = 0;
  uploaded = 7;
  downloaded = 0;
  conn = some 3;
  type = bittorrent;
  event = started;
  source = Source.udp;
}

peer-bytes : All IsByte peer.id
peer-bytes = ground arith

db_to_common-common_to_db_example :
    db_to_common (common_to_db 20 request.info_hash peer) ≡ record peer { conn = none }
db_to_common-common_to_db_example = db_to_common-common_to_db 20 request.info_hash peer peer-bytes

-- A database of one peer.
abbrev find_one : ℤ → (Peers → Bool) → Peers → List Peers
find_one (pos n) p row = if p row && ltb 0 n then row ∷ [] else []
find_one (negsuc n) p row = if p row then row ∷ [] else []

abbrev one_row : Gorm
one_row = record {
  Db = Peers;
  find_peers = λ p row. done (find_one (pos 1) p row);
  find_peers_at_random = λ seed n p row. done (find_one n p row);
  count_peers = λ p row. done (if p row then 1 else 0);
  count_info_hashes = λ p row. done (if p row then 1 else 0);
  save_peer = λ row old. (row, done tt);
  delete_peers = λ p row. (row, failed (codes "read only"));
  find_blocks = λ p row. done [];
  create_block = λ b row. (row, failed (codes "read only"));
}

found_row :
    (n : ℤ) (p : Peers → Bool) (row : Peers)
    → All (λ r. p r ≡ true) (find_one n p row)
      × ((m : ℕ) → n ≡ pos m → length (find_one n p row) ≤ m)
found_row (pos n) p row = elim (Bool-cases (p row && ltb 0 n)) [
  | inl e ↦ rw e ((ground (arith, e), tt), λ m h. ground (arith, e, h))
  | inr e ↦ rw e (tt, λ m h. omega arith)
]
found_row (negsuc n) p row = elim (Bool-cases (p row)) [
  | inl e ↦ rw e ((ground (arith, e), tt), λ m h. ground (arith, h))
  | inr e ↦ rw e (tt, λ m h. omega arith)
]

one_row-IsFind : IsFind one_row
one_row-IsFind = record { find-limit = λ seed n p row. found_row n p row }

abbrev one_peer_manager : DbManager one_row exact
one_peer_manager = new_db_manager (common_to_db 20 request.info_hash peer)

handle_announce_peer-Answers_example :
    Answers
      (λ ps.
        All (λ p. is_given cfg 100 request p ≡ true) ps
        × ((n : ℕ) → request.num_want ≡ pos n → length ps ≤ n))
      (handle_announce_peer cfg 100 0 request one_peer_manager).1
handle_announce_peer-Answers_example =
    handle_announce_peer-Answers one_row-IsFind cfg 100 0 request one_peer_manager

-- The announce finds the peer.
found_peer :
    (handle_announce_peer cfg 100 0 request one_peer_manager).1
    ≡ done (record peer { conn = none } ∷ [])
unfolding handle_announce_peer new_db_manager common_to_db has parse_ip eq_bytes eq_event eq_type
found_peer = refl
