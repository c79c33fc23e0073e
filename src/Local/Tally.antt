-- ===== src/Local/Tally.antt =====
-- What `Scrape` of biz/services/peer/local/local.go counts.
use trunker.Base.{
  ℕ, ◌+◌, ◌≡◌, Bool, not, ◌&&◌, ◌||◌, Option, none, some, List, [], ◌∷◌, ◌++◌, arith, ◌==◌,
  if◌then◌else◌, count, count-append,
}
use trunker.Base.Bytes.{Bytes}
use trunker.Config.{Config}
use trunker.Request.{ScrapeFile}
use trunker.Mapx.{SyncStringMap}
use trunker.Peer.{Peer}
use trunker.Peer.Event.{stopped, completed, eq_event}
use trunker.Local.Root.{InfoHashRoot, visit, range}
use trunker.Local.Manager.{is_expired}
use trunker.Local.Handlers.{Manager}
use trunker.Local.Scrape.{Tally, no_peers, tally, scrape}
use trunker.Local.Respond.{values, peers_in}

abbrev pub is_live : Config → ℕ → Peer → Bool
is_live cfg now p = not (is_expired cfg now p)

abbrev pub is_seed : Config → ℕ → Peer → Bool
is_seed cfg now p = is_live cfg now p && p.left == 0

abbrev pub is_running_seed : Config → ℕ → Peer → Bool
is_running_seed cfg now p = is_seed cfg now p && not (eq_event p.event stopped)

abbrev pub is_complete : Config → ℕ → Peer → Bool
is_complete cfg now p = is_live cfg now p && (p.left == 0 || eq_event p.event completed)

module _ (cfg : Config) (now : ℕ) where
  -- The counters after `es` are those before, plus the peers of each kind.
  pub record Counts (es : List Peer) (t u : Tally) : Type 0 where
    pub complete : u.complete ≡ t.complete + count (is_complete cfg now) es
    pub downloaded : u.downloaded ≡ t.downloaded + count (is_seed cfg now) es
    pub seeder : u.seeder ≡ t.seeder + count (is_running_seed cfg now) es
    pub total : u.complete + u.incomplete ≡ t.complete + t.incomplete + count (is_live cfg now) es

  visit-tally :
      (es : List (Bytes × Peer)) (t : Tally) → Counts (values es) t (visit (tally cfg now) es t)
  unfolding visit tally
  visit-tally [] t = omega arith
  visit-tally ((k, v) ∷ es) t = ground (arith, visit-tally es (tally cfg now k v t).0)

  Counts-append :
      (es fs : List Peer) (t u w : Tally) → Counts es t u → Counts fs u w → Counts (es ++ fs) t w
  Counts-append es fs t u w c d = record {
    complete = omega (arith, c.complete, d.complete, count-append (is_complete cfg now) es fs);
    downloaded = omega (arith, c.downloaded, d.downloaded, count-append (is_seed cfg now) es fs);
    seeder = omega (arith, c.seeder, d.seeder, count-append (is_running_seed cfg now) es fs);
    total = omega (arith, c.total, d.total, count-append (is_live cfg now) es fs);
  }

  range-tally :
      {P : SyncStringMap Peer} (r : InfoHashRoot P) (t : Tally)
      → Counts (peers_in r) t (range (tally cfg now) r t)
  unfolding range
  range-tally {P} r t =
      let t0 = visit (tally cfg now) (P.entries r.peer_map0) t in
      let t1 = visit (tally cfg now) (P.entries r.peer_map1) t0 in
      Counts-append (values (P.entries r.peer_map0)) _ t t0 _
        (visit-tally (P.entries r.peer_map0) t)
        (Counts-append (values (P.entries r.peer_map1)) (values (P.entries r.peer_map2)) t0 t1 _
          (visit-tally (P.entries r.peer_map1) t0) (visit-tally (P.entries r.peer_map2) t1))

  -- A scrape that is not answered from the cache counts, among the peers of the torrent that have
  -- not expired, those that are complete (nothing left, or a `completed` event), those with nothing
  -- left as downloaded, and of these the ones that have not stopped as seeders; complete and
  -- incomplete together are all that have not expired.
  pub scrape_counts :
      {P : SyncStringMap Peer} {R : SyncStringMap (InfoHashRoot P)} (cached : Option ScrapeFile)
      (h : Bytes) (m : Manager P R) (root : InfoHashRoot P)
      → R.load h m.info_hash_map ≡ some root
      → (if cfg.cache_enable then cached else none) ≡ none
      → let f = (scrape cfg now cached h m).result in
        (f.complete ≡ count (is_complete cfg now) (peers_in root))
        × (f.downloaded ≡ count (is_seed cfg now) (peers_in root))
        × (f.seeder ≡ count (is_running_seed cfg now) (peers_in root))
        × (f.complete + f.incomplete ≡ count (is_live cfg now) (peers_in root))
  unfolding scrape
  scrape_counts cached h m root e miss =
      let c = range-tally root no_peers in
      rw (e, miss, scrape)
        (
          omega (arith, c.complete),
          omega (arith, c.downloaded),
          omega (arith, c.seeder),
          omega (arith, c.total),
        )
