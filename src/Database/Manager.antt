-- ===== src/Database/Manager.antt =====
-- biz/services/peer/database/db_manager.go and admin.go. The goroutines that save a peer are kept in
-- `saves` until they run, each whole. `now` is the clock and `seed` that of the random order.
use trunker.Base.{ℕ, ◌-◌, ◌^◌, ◌&&◌, ◌||◌, none, List, [], ◌∷◌, ◌++◌, map, if◌then◌else◌}
use trunker.Base.Bytes.{Bytes, codes}
use trunker.Base.Int.{is_nonneg, wrap}
use trunker.Net.Parse.{parse_ip}
use trunker.Config.{Config}
use trunker.Request.{AnnounceRequest, ScrapeFile}
use trunker.Peer.{Peer, Source, is_peer_connectable}
use trunker.Peer.Event.{parse_peer_event}
use trunker.Local.Manager.{is_invalid_address}
use trunker.Tracker.{Outcome, done, failed, Action, StatisticInfo, AdminManager}
use trunker.Ban.Item.{Bloom, add_keys}
use trunker.Ban.Hex.{hex_encode}
use trunker.Database.{
  Gorm, Peers, BlockType, block_type_info_hash, block_type_peer_id, eq_block_type, is_valid,
  has_info_hash, is_picked, is_downloaded, is_complete, is_seeder, is_incomplete, decode_string,
  common_to_db, db_to_common,
}

pub record DbManager (G : Gorm) (B : Bloom) : Type 0 where
  pub db : G.Db
  pub ban_info_hash : B.Filter
  pub ban_peer_id : B.Filter
  pub saves : List (Bytes × Peer)

-- The source of the peer is not set, so it is the first of the type.
unfoldable pub peer_of : ℕ → AnnounceRequest → Peer
peer_of now req = record {
  ip = parse_ip req.ip;
  ipv4 = parse_ip req.ipv4;
  ipv6 = parse_ip req.ipv6;
  client_ip = req.client_ip;
  last_seen = now;
  offers = req.offers;
  id = req.peer_id;
  user_agent = req.user_agent;
  port = req.port;
  left = if is_nonneg req.left then wrap 64 req.left else 2 ^ 64 - 1;
  uploaded = if is_nonneg req.uploaded then wrap 64 req.uploaded else 0;
  downloaded = if is_nonneg req.downloaded then wrap 64 req.downloaded else 0;
  conn = none;
  type = req.type;
  event = parse_peer_event req.event;
  source = Source.http;
}

-- gslice.Map of the rows of a query that did not fail.
unfoldable pub to_peers : Outcome (List Peers) → Outcome (List Peer)
unfolding db_to_common
to_peers (done ps) = done (map db_to_common ps)
to_peers (failed e) = failed e

-- The next query, unless this one failed.
abbrev and_count : {A : Type 0} → Outcome ℕ → (ℕ → Outcome A) → Outcome A
and_count o next = elim o [ done n ↦ next n | failed e ↦ failed e ]

-- `int(n)` of a count, an int64.
module _ (G : Gorm) (cfg : Config) (now : ℕ) where
  unfoldable pub counts : Bytes → G.Db → Outcome ScrapeFile
  unfolding is_complete is_seeder is_downloaded is_incomplete
  counts info_hash db = and_count (G.count_peers (is_complete cfg now info_hash) db) (λ complete.
      and_count (G.count_peers (is_seeder cfg now info_hash) db) (λ seeder.
        and_count (G.count_peers (is_downloaded info_hash) db) (λ downloaded.
          and_count (G.count_peers (is_incomplete cfg now info_hash) db) (λ incomplete.
            done (record {
              seeder = seeder;
              complete = complete;
              incomplete = incomplete;
              downloaded = downloaded;
            })))))

  unfoldable pub total_counts : G.Db → Outcome StatisticInfo
  unfolding is_valid
  total_counts db = and_count (G.count_peers (is_valid cfg now) db) (λ peers.
      and_count (G.count_info_hashes (is_valid cfg now) db) (λ torrents. done (record {
        total_peers = peers;
        total_torrents = torrents;
        shards = (codes "all", record { total_peers = peers; total_torrents = torrents }) ∷ [];
      })))

module _ (G : Gorm) where
  -- AddToBlockList.
  unfoldable pub add_to_block_list : ℕ → Bytes → BlockType → Action G.Db (Unit {0})
  unfolding hex_encode
  add_to_block_list now target_raw type db =
      G.create_block (record { target = hex_encode target_raw; type = type; created_at = now }) db

  -- The targets of the rows of one type; a query that fails has none.
  unfoldable pub block_list : BlockType → G.Db → List Bytes
  unfolding decode_string eq_block_type
  block_list type db = elim (G.find_blocks (λ b. eq_block_type b.type type) db) [
    | done bs ↦ map (λ b. decode_string b.target) bs
    | failed e ↦ []
  ]

module _ {G : Gorm} {B : Bloom} where
  abbrev with_db : {A : Type 0} → DbManager G B → G.Db × Outcome A → DbManager G B × Outcome A
  with_db m (db, o) = (record m { db = db }, o)

  unfoldable pub ban_info_hash : ℕ → Bytes → Action (DbManager G B) (Unit {0})
  unfolding add_to_block_list
  ban_info_hash now info_hash m =
      with_db (record m { ban_info_hash = B.add info_hash m.ban_info_hash })
        (add_to_block_list G now info_hash block_type_info_hash m.db)

  unfoldable pub ban_peer : ℕ → Bytes → Action (DbManager G B) (Unit {0})
  unfolding add_to_block_list
  ban_peer now peer_id m =
      with_db (record m { ban_peer_id = B.add peer_id m.ban_peer_id })
        (add_to_block_list G now peer_id block_type_peer_id m.db)

  -- It clears the filter of the peers.
  unfoldable pub clear_ban_info_hash : DbManager G B → DbManager G B
  clear_ban_info_hash m = record m { ban_peer_id = B.new 10_000 }

  unfoldable pub clear_ban_peer : DbManager G B → DbManager G B
  clear_ban_peer m = record m { ban_peer_id = B.new 10_000 }

  unfoldable pub get_peers : Config → ℕ → Bytes → Action (DbManager G B) (List Peer)
  unfolding to_peers is_valid has_info_hash hex_encode
  get_peers cfg now info_hash m = (
    m,
    to_peers
        (G.find_peers (λ p. has_info_hash (hex_encode info_hash) p && is_valid cfg now p) m.db),
  )

  unfoldable pub delete_info_hash : Bytes → Action (DbManager G B) (Unit {0})
  unfolding has_info_hash hex_encode
  delete_info_hash info_hash m =
      with_db m (G.delete_peers (has_info_hash (hex_encode info_hash)) m.db)

  unfoldable pub handle_announce_peer :
      Config → ℕ → ℕ → AnnounceRequest → Action (DbManager G B) (List Peer)
  unfolding peer_of is_invalid_address is_picked to_peers hex_encode
  handle_announce_peer cfg now seed req m =
      let peer = peer_of now req in
      if B.test req.info_hash m.ban_info_hash || B.test req.peer_id m.ban_peer_id
      then (m, failed (codes "banned"))
      else if is_invalid_address peer
      then (m, failed (codes "invalid address"))
      else (
        record m { saves = m.saves ++ ((req.info_hash, peer) ∷ []) },
        to_peers (
            G.find_peers_at_random seed req.num_want
              (is_picked cfg now (hex_encode peer.id) req.info_hash req.type) m.db),
      )

  -- The goroutine of HandleAnnouncePeer; an error is logged.
  unfoldable pub save : Config → ℕ → Bytes × Peer → DbManager G B → DbManager G B
  unfolding is_peer_connectable common_to_db
  save cfg now (info_hash, peer) m =
      if is_peer_connectable cfg.use_announce_ip peer
      then record m { db = (G.save_peer (common_to_db now info_hash peer) m.db).0 }
      else m

  unfoldable pub scrape : Config → ℕ → Bytes → Action (DbManager G B) ScrapeFile
  unfolding counts hex_encode
  scrape cfg now info_hash_raw m = (m, counts G cfg now (hex_encode info_hash_raw) m.db)

  unfoldable pub get_statistic : Config → ℕ → Action (DbManager G B) StatisticInfo
  unfolding total_counts
  get_statistic cfg now m = (m, total_counts G cfg now m.db)

  -- NewDBManager with restoreBlockList, on a database that is open.
  unfoldable pub new_db_manager : G.Db → DbManager G B
  unfolding block_list add_keys
  new_db_manager db = record {
    db = db;
    ban_info_hash = add_keys B (block_list G block_type_info_hash db) (B.new 10_000);
    ban_peer_id = add_keys B (block_list G block_type_peer_id db) (B.new 10_000);
    saves = [];
  }

  -- The bans of addresses belong to the mode that keeps its peers in memory.
  unfoldable pub ban_ip : Bytes → Action (DbManager G B) (Unit {0})
  ban_ip ip m = (
    m,
    failed (codes "IP banning is not supported in database mode, use memory mode with XDP config"),
  )

  unfoldable pub unban_ip : Bytes → Action (DbManager G B) (Unit {0})
  unban_ip ip m = (
    m,
    failed
        (codes "IP unbanning is not supported in database mode, use memory mode with XDP config"),
  )

  unfoldable pub clear_ban_ip : Action (DbManager G B) (Unit {0})
  clear_ban_ip m = (
    m,
    failed (
        codes "IP ban clearing is not supported in database mode, use memory mode with XDP config"),
  )

-- The manager as the handlers see it, at one time.
abbrev pub db_manager : Gorm → Bloom → Config → ℕ → ℕ → AdminManager
db_manager G B cfg now seed = record {
  State = DbManager G B;
  handle_announce_peer = handle_announce_peer cfg now seed;
  scrape = scrape cfg now;
  get_statistic = get_statistic cfg now;
  ban_info_hash = ban_info_hash now;
  ban_peer = ban_peer now;
  clear_ban_info_hash = clear_ban_info_hash;
  clear_ban_peer = clear_ban_peer;
  get_peers = get_peers cfg now;
  delete_info_hash = delete_info_hash;
  ban_ip = ban_ip;
  unban_ip = unban_ip;
  clear_ban_ip = clear_ban_ip;
  get_ip_filter_stats = λ m. none;
}
