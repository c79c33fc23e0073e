-- ===== src/Rpc/Client.antt =====
-- biz/services/peer/rpc/client.go and dummy.go: the manager of a server that keeps no torrents and
-- calls another one for them.
use trunker.Base.{none, some, List, [], ◌∷◌, map}
use trunker.Base.Bytes.{Bytes, codes}
use trunker.Base.Int.{wrap}
use trunker.Base.Equality.{bytes_eq}
use trunker.Mapx.Entries.{lookup}
use trunker.Local.Scrape.{Statistic}
use trunker.Request.{AnnounceRequest, ScrapeFile}
use trunker.Peer.{Peer}
use trunker.Rpc.{peer_idl_to_common}
use trunker.Rpc.Requests.{announce_request_common_to_idl}
use trunker.Rpc.Server.{TrunkerService, IdlStatistic, IdlStatisticInfo, info_hash, peer_id}
use trunker.Tracker.{done, failed, AdminManager, StatisticInfo, Action, ◌>>=◌, return}

-- common.ErrNotSupportedInRPCMode.
abbrev pub err_not_supported_in_rpc_mode : Bytes
err_not_supported_in_rpc_mode =
    codes "this operation is not supported in RPC mode, configure on remote server"

-- The panic at a key that the map of an answer does not have.
abbrev pub nil_dereference : Bytes
nil_dereference = codes "runtime error: invalid memory address or nil pointer dereference"

unfoldable pub statistic_of_idl : IdlStatistic → Statistic
unfolding wrap
statistic_of_idl v = record {
  total_peers = wrap 64 v.total_peers;
  total_torrents = wrap 64 v.total_torrents;
}

unfoldable pub statistic_info_of_idl : IdlStatisticInfo → StatisticInfo
unfolding statistic_of_idl
statistic_info_of_idl resp = record {
  total_peers = wrap 64 resp.info.total_peers;
  total_torrents = wrap 64 resp.info.total_torrents;
  shards = map (λ (x : Bytes × IdlStatistic). (x.0, statistic_of_idl x.1)) resp.shards;
}

module _ (c : TrunkerService) where
  unfoldable pub handle_announce_peer : AnnounceRequest → Action c.State (List Peer)
  unfolding announce_request_common_to_idl
  handle_announce_peer req = do
    peers ← c.announce (announce_request_common_to_idl req)
    return (map peer_idl_to_common peers)

  unfoldable pub scrape : Bytes → Action c.State ScrapeFile
  unfolding lookup
  scrape hash = do
    res ← c.scrape (hash ∷ [])
    λ s. elim (lookup hash res) [ none ↦ (s, failed nil_dereference) | some v ↦ (s, done v) ]

  unfoldable pub get_statistic : Action c.State StatisticInfo
  unfolding statistic_info_of_idl
  get_statistic = do resp ← c.get_statistic; return (statistic_info_of_idl resp)

  unfoldable pub get_peers : Bytes → Action c.State (List Peer)
  get_peers hash = do peers ← c.get_peer hash; return (map peer_idl_to_common peers)

  -- The IP bans and the calls of dummy.go answer that they are not supported, or do nothing.
  abbrev pub new_manager : AdminManager
  new_manager = record {
    State = c.State;
    handle_announce_peer = handle_announce_peer;
    scrape = scrape;
    get_statistic = get_statistic;
    ban_info_hash = c.ban info_hash;
    ban_peer = c.ban peer_id;
    clear_ban_info_hash = λ s. s;
    clear_ban_peer = λ s. s;
    get_peers = get_peers;
    delete_info_hash = c.delete_info_hash;
    ban_ip = λ ip s. (s, failed err_not_supported_in_rpc_mode);
    unban_ip = λ ip s. (s, failed err_not_supported_in_rpc_mode);
    clear_ban_ip = λ s. (s, failed err_not_supported_in_rpc_mode);
    get_ip_filter_stats = λ s. none;
  }
