-- ===== src/Rpc/Server.antt =====
-- biz/services/rpc/handler.go: the calls that a server of torrents answers with its manager.
use trunker.Base.{ℕ, List, [], ◌∷◌, map}
use trunker.Base.Bytes.{Bytes, codes}
use trunker.Base.Int.{ℤ, signed64}
use trunker.Base.Equality.{bytes_eq}
use trunker.Mapx.Entries.{insert}
use trunker.Local.Scrape.{Statistic}
use trunker.Peer.Event.{PeerEvent}
use trunker.Request.{ScrapeFile}
use trunker.Rpc.{IdlPeer, peer_common_to_idl}
use trunker.Rpc.Requests.{IdlAnnounceRequest, announce_request_idl_to_common}
use trunker.Tracker.{failed, AdminManager, StatisticInfo, Action, ◌>>=◌, return}

-- BanType of the IDL; `other` is a value with no name.
pub data BanTarget : Type 0 where
  info_hash peer_id : BanTarget
  other : ℕ → BanTarget

pub record IdlStatistic : Type 0 where
  pub total_peers : ℤ
  pub total_torrents : ℤ

pub record IdlStatisticInfo : Type 0 where
  pub info : IdlStatistic
  pub shards : List (Bytes × IdlStatistic)

-- The interface TrunkerService that the IDL generates, for the server and for the client. The struct
-- ScrapeFile of the IDL has the fields of the tracker's own.
pub record TrunkerService : Type 1 where
  pub State : Type 0
  pub announce : IdlAnnounceRequest → Action State (List IdlPeer)
  pub scrape : List Bytes → Action State (List (Bytes × ScrapeFile))
  pub get_statistic : Action State IdlStatisticInfo
  pub ban : BanTarget → Bytes → Action State (Unit {0})
  pub delete_info_hash : Bytes → Action State (Unit {0})
  pub get_peer : Bytes → Action State (List IdlPeer)

unfoldable pub statistic_to_idl : Statistic → IdlStatistic
unfolding signed64
statistic_to_idl v = record {
  total_peers = signed64 v.total_peers;
  total_torrents = signed64 v.total_torrents;
}

unfoldable pub statistic_info_to_idl : StatisticInfo → IdlStatisticInfo
unfolding statistic_to_idl
statistic_info_to_idl resp = record {
  info = record {
    total_peers = signed64 resp.total_peers;
    total_torrents = signed64 resp.total_torrents;
  };
  shards = map (λ (x : Bytes × Statistic). (x.0, statistic_to_idl x.1)) resp.shards;
}

module _ (event_string : PeerEvent → Bytes) (m : AdminManager) where
  unfoldable pub announce : IdlAnnounceRequest → Action m.State (List IdlPeer)
  unfolding announce_request_idl_to_common
  announce request = do
    peers ← m.handle_announce_peer (announce_request_idl_to_common event_string request)
    return (map peer_common_to_idl peers)

  -- The loop over the info hashes, on the map `resp`.
  unfoldable pub scrape_each :
      List Bytes → List (Bytes × ScrapeFile) → Action m.State (List (Bytes × ScrapeFile))
  unfolding insert
  scrape_each [] resp = return resp
  scrape_each (hash ∷ hashes) resp = do v ← m.scrape hash; scrape_each hashes (insert hash v resp)

  unfoldable pub scrape : List Bytes → Action m.State (List (Bytes × ScrapeFile))
  unfolding scrape_each
  scrape hashes = scrape_each hashes []

  unfoldable pub get_statistic : Action m.State IdlStatisticInfo
  unfolding statistic_info_to_idl
  get_statistic = do resp ← m.get_statistic; return (statistic_info_to_idl resp)

  unfoldable pub ban : BanTarget → Bytes → Action m.State (Unit {0})
  ban info_hash target = m.ban_info_hash target
  ban peer_id target = m.ban_peer target
  ban (BanTarget.other n) target = λ s. (s, failed (codes "unknown type"))

  unfoldable pub delete_info_hash : Bytes → Action m.State (Unit {0})
  delete_info_hash target = m.delete_info_hash target

  unfoldable pub get_peer : Bytes → Action m.State (List IdlPeer)
  get_peer hash = do res ← m.get_peers hash; return (map peer_common_to_idl res)

  abbrev pub new_trunker_service_impl : TrunkerService
  new_trunker_service_impl = record {
    State = m.State;
    announce = announce;
    scrape = scrape;
    get_statistic = get_statistic;
    ban = ban;
    delete_info_hash = delete_info_hash;
    get_peer = get_peer;
  }
