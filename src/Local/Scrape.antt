-- ===== src/Local/Scrape.antt =====
-- `Scrape` and `GetStatistic` of biz/services/peer/local/local.go.
use trunker.Base.{
  ℕ, ◌+◌, Bool, true, Option, none, some, List, [], ◌∷◌, ◌++◌, ltb, ◌==◌, if◌then◌else◌, length,
}
use trunker.Base.Bytes.{Bytes, codes}
use trunker.Config.{Config}
use trunker.Request.{ScrapeFile}
use trunker.Peer.{Peer}
use trunker.Peer.Event.{stopped, completed, eq_event}
use trunker.Mapx.{SyncStringMap}
use trunker.Local.Root.{InfoHashRoot, range}
use trunker.Local.Root
use trunker.Local.Manager.{cache_set, delete_keys, is_expired}
use trunker.Local.Handlers.{Manager, pend, Reply}

-- The variables that the callback of `Scrape` changes.
pub record Tally : Type 0 where
  pub expired_peer : List Bytes
  pub complete : ℕ
  pub incomplete : ℕ
  pub downloaded : ℕ
  pub seeder : ℕ

abbrev pub no_peers : Tally
no_peers = record { expired_peer = []; complete = 0; incomplete = 0; downloaded = 0; seeder = 0 }

unfoldable pub tally : Config → ℕ → Bytes → Peer → Tally → Tally × Bool
tally cfg now k value t =
    if is_expired cfg now value
    then (record t { expired_peer = t.expired_peer ++ (k ∷ []) }, true)
    else if value.left == 0
    then (
      record t {
        downloaded = t.downloaded + 1;
        complete = t.complete + 1;
        seeder = if eq_event value.event stopped then t.seeder else t.seeder + 1;
      },
      true,
    )
    else if eq_event value.event completed
    then (record t { complete = t.complete + 1 }, true)
    else (record t { incomplete = t.incomplete + 1 }, true)

abbrev pub file_of : Tally → ScrapeFile
file_of t = record {
  seeder = t.seeder;
  complete = t.complete;
  incomplete = t.incomplete;
  downloaded = t.downloaded;
}

pub record Statistic : Type 0 where
  pub total_peers : ℕ
  pub total_torrents : ℕ

module _ {P : SyncStringMap Peer} where
  sum_len : List (Bytes × InfoHashRoot P) → ℕ
  sum_len [] = 0
  sum_len ((k, root) ∷ rest) = Root.len root + sum_len rest

module _ {P : SyncStringMap Peer} {R : SyncStringMap (InfoHashRoot P)} where
  -- `cached` is what the cache service has under the torrent's key.
  unfoldable pub scrape :
      Config → ℕ → Option ScrapeFile → Bytes → Manager P R → Reply P R ScrapeFile
  unfolding tally range
  scrape cfg now cached info_hash m = elim (R.load info_hash m.info_hash_map) [
    | none ↦ record { manager = m; result = file_of no_peers; tasks = []; effects = [] }
    | some root ↦
        let t = range (tally cfg now) root no_peers in
        let hit = if cfg.cache_enable then cached else none in
        elim hit [
          | some v ↦ record { manager = m; result = v; tasks = []; effects = [] }
          | none ↦ record {
            manager = m;
            result = file_of t;
            tasks =
                if ltb 0 (length t.expired_peer)
                then pend info_hash root.serial (delete_keys t.expired_peer ∷ [])
                else [];
            effects =
                if cfg.cache_enable
                then cache_set (codes "scrape_" ++ info_hash) (file_of t) ∷ []
                else [];
          }
        ]
  ]

  unfoldable pub get_statistic : Manager P R → Statistic
  unfolding sum_len
  get_statistic m = record {
    total_peers = sum_len (R.entries m.info_hash_map);
    total_torrents = R.len m.info_hash_map;
  }
