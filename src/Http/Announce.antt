-- ===== src/Http/Announce.antt =====
-- `Announce`, `Scrape` and `validAnnounceReq` of biz/handler/announce.go. The binding of the query, the client's
-- address and the cut of the user agent are libraries' work: their results are arguments.
use trunker.Base.{
  ℕ, ◌+◌, ◌-◌, ◌≡◌, Bool, true, false, not, ◌&&◌, ◌||◌, Option, none, some, List, [], ◌∷◌, map,
  arith, leb, ◌==◌, if◌then◌else◌, is_some, get_or_else, length,
}
use trunker.Base.Bytes.{Bytes, codes}
use trunker.Base.Int.{ℤ, pos, negsuc, lt_ℕ, le_ℕ, eq_ℕ, is_nonneg}
use trunker.Config.{Config}
use trunker.Base.Equality.{bytes_eq}
use trunker.Mapx.Entries.{insert}
use trunker.Net.{IpAddr, to4}
use trunker.Peer.{bittorrent, Source}
use trunker.Request.{AnnounceRequest, ScrapeFile}
use trunker.Tracker.{failed, PeerManager, Action, return, ◌>>=◌}
use trunker.Http.Compact.{ModelPeer, to_model, peers_to_compact}

unfoldable pub valid_announce_req : AnnounceRequest → Bool
valid_announce_req req =
    length req.info_hash == 20
    && length req.peer_id == 20
    && (is_nonneg req.port && lt_ℕ req.port 65535)

-- The number of peers asked for, as the handler limits it; `max_peers` is not negative.
unfoldable pub limit_num_want : ℕ → ℤ → ℤ
limit_num_want max_peers n =
    let cut = if le_ℕ n max_peers then n else pos max_peers in
    if le_ℕ cut 0 || not (le_ℕ cut 500) then pos 50 else cut

-- AnnounceBasicResponse and AnnounceCompactResponse. `interval` is TTL plus a number from -100 to 100.
pub data Peers : Type 0 where
  basic : List ModelPeer → Peers
  compact : Bytes → Bytes → Peers

pub record AnnounceResponse : Type 0 where
  pub interval : ℤ
  pub peers : Peers
  pub external_ip : Bytes
  pub incomplete : ℕ
  pub tracker_id : Bytes
  pub complete : ℕ

-- `TTL + int64(fastrand.Intn(201)-100)`; `jitter` is the random number.
abbrev pub interval_of : Config → ℕ → ℤ
interval_of cfg jitter =
    if leb 100 (cfg.ttl + jitter)
    then pos (cfg.ttl + jitter - 100)
    else negsuc (99 - (cfg.ttl + jitter))

-- The request that the handler passes on.
unfoldable pub prepare : Config → IpAddr → Bytes → AnnounceRequest → AnnounceRequest
unfolding limit_num_want
prepare cfg remote user_agent req = record req {
  client_ip = if is_some (to4 remote) then to4 remote else remote;
  user_agent = user_agent;
  num_want = limit_num_want cfg.max_peers_per_torrent req.num_want;
  type = bittorrent;
  source = Source.http;
}

module _ (m : PeerManager) (cfg : Config) (jitter : ℕ) where
  -- What follows the checks.
  unfoldable pub answer : AnnounceRequest → Action m.State AnnounceResponse
  unfolding to_model peers_to_compact
  answer req = do
    f ← m.scrape req.info_hash
    res ← m.handle_announce_peer req
    return (record {
      interval = interval_of cfg jitter;
      peers =
          if eq_ℕ req.compact 0
          then basic (map (to_model cfg.use_announce_ip) res)
          else compact (peers_to_compact cfg.use_announce_ip res).0
              (peers_to_compact cfg.use_announce_ip res).1;
      external_ip = get_or_else req.client_ip [];
      incomplete = f.incomplete;
      tracker_id = cfg.tracker_id;
      complete = f.complete;
    })

  -- `bound` is the request that the query makes, none if it is refused; `jitter` is the random
  -- number of the interval.
  unfoldable pub announce :
      IpAddr → Bytes → Option AnnounceRequest → Action m.State AnnounceResponse
  unfolding valid_announce_req prepare answer
  announce remote user_agent none s = (s, failed (codes "bad request"))
  announce remote user_agent (some req) s =
      if valid_announce_req req
      then answer (prepare cfg remote user_agent req) s
      else (s, failed (codes "bad request"))

module _ (m : PeerManager) where
  -- The loop of `Scrape` on the map of results; the first error ends it.
  unfoldable pub scrape_files :
      List Bytes → List (Bytes × ScrapeFile) → Action m.State (List (Bytes × ScrapeFile))
  unfolding insert
  scrape_files [] files = return files
  scrape_files (h ∷ hs) files = do f ← m.scrape h; scrape_files hs (insert h f files)

  -- `bound` is the list of info hashes of the query, none if it is refused.
  unfoldable pub scrape : Option (List Bytes) → Action m.State (List (Bytes × ScrapeFile))
  unfolding scrape_files
  scrape none s = (s, failed (codes "bad request"))
  scrape (some []) s = (s, failed (codes "info hash can't be empty"))
  scrape (some (h ∷ hs)) s = scrape_files (h ∷ hs) [] s

-- The number of peers that the manager is asked for is between 1 and 500, whatever the client asks
-- for and whatever maximum is configured.
pub limit_num_want_bounds :
    (max_peers : ℕ) (n : ℤ)
    → (lt_ℕ (limit_num_want max_peers n) 1 ≡ false) × (le_ℕ (limit_num_want max_peers n) 500 ≡ true)
unfolding limit_num_want lt_ℕ le_ℕ
limit_num_want_bounds max_peers (pos n) = ground arith
limit_num_want_bounds max_peers (negsuc n) = ground arith
