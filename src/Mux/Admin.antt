-- ===== src/Mux/Admin.antt =====
-- The other methods of MuxLocalManager (biz/services/peer/mux_local/mux_manager.go).
use trunker.Base.{ℕ, ◌+◌, ◌%◌, ◌^◌, Option, List, [], ◌∷◌, ◌++◌, map, count}
use trunker.Base.Bytes.{Bytes}
use trunker.Config.{Config}
use trunker.Mapx.{SyncStringMap}
use trunker.Peer.{Peer}
use trunker.Ban.{
  ban_type_info_hash, ban_type_peer_id, add_ban, clear_ban, add_ip_ban, remove_ip_ban,
  clear_ip_bans,
}
use trunker.Ban.IpFilter.{IpFilter}
use trunker.Ban.Item.{Bloom, Io}
use trunker.Local.Root.{InfoHashRoot}
use trunker.Local.Manager.{Effect}
use trunker.Local.Handlers.{Manager}
use trunker.Local.Scrape.{Statistic, get_statistic}
use trunker.Local.Clean
use trunker.Mux.{MuxLocalManager}

module _ {P : SyncStringMap Peer} {R : SyncStringMap (InfoHashRoot P)} where
  -- The shards are cleaned by a pool of workers, each by itself: the managers, the sum of their
  -- counts, and the connections closed.
  unfoldable pub clean_all : Config → ℕ → List (Manager P R) → List (Manager P R) × ℕ × List Effect
  clean_all cfg now [] = ([], 0, [])
  clean_all cfg now (w ∷ ws) =
      let (w', count, closed) = Clean.clean cfg now w in
      let (ws', counts, others) = clean_all cfg now ws in
      (w' ∷ ws', count + counts, closed ++ others)

  -- The sums, as uint64.
  unfoldable pub sum_statistics : List (Manager P R) → Statistic
  sum_statistics [] = record { total_peers = 0; total_torrents = 0 }
  sum_statistics (w ∷ ws) =
      let info = get_statistic w in
      let rest = sum_statistics ws in
      record {
        total_peers = (info.total_peers + rest.total_peers) % 2 ^ 64;
        total_torrents = (info.total_torrents + rest.total_torrents) % 2 ^ 64;
      }

module _ {P : SyncStringMap Peer} {R : SyncStringMap (InfoHashRoot P)} {B : Bloom}
    {F : IpFilter} where
  unfoldable pub clean :
      Config → ℕ → MuxLocalManager P R B F → MuxLocalManager P R B F × ℕ × List Effect
  unfolding clean_all
  clean cfg now m =
      let (ws, total, closed) = clean_all cfg now m.local_list in
      (record m { local_list = ws }, total, closed)

  -- The totals, and the statistic of each shard.
  unfoldable pub get_statistics : MuxLocalManager P R B F → Statistic × List Statistic
  unfolding sum_statistics
  get_statistics m = (sum_statistics m.local_list, map get_statistic m.local_list)

  unfoldable pub ban_peer :
      Io → Bytes → MuxLocalManager P R B F → MuxLocalManager P R B F × Option Bytes
  ban_peer io peer_id m =
      let (ban, error) = add_ban ban_type_peer_id io peer_id m.ban in
      (record m { ban = ban }, error)

  unfoldable pub clear_ban_info_hash : MuxLocalManager P R B F → MuxLocalManager P R B F
  clear_ban_info_hash m = record m { ban = clear_ban ban_type_info_hash m.ban }

  unfoldable pub clear_ban_peer : MuxLocalManager P R B F → MuxLocalManager P R B F
  clear_ban_peer m = record m { ban = clear_ban ban_type_peer_id m.ban }

  unfoldable pub ban_ip : Bytes → MuxLocalManager P R B F → MuxLocalManager P R B F × Option Bytes
  ban_ip ip m = let (ban, error) = add_ip_ban ip m.ban in (record m { ban = ban }, error)

  unfoldable pub unban_ip : Bytes → MuxLocalManager P R B F → MuxLocalManager P R B F × Option Bytes
  unban_ip ip m = let (ban, error) = remove_ip_ban ip m.ban in (record m { ban = ban }, error)

  unfoldable pub clear_ban_ip : MuxLocalManager P R B F → MuxLocalManager P R B F × Option Bytes
  clear_ban_ip m = let (ban, error) = clear_ip_bans m.ban in (record m { ban = ban }, error)
