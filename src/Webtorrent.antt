-- ===== src/Webtorrent.antt =====
-- biz/handler/webtorrent.go and utils/webtorrent: the messages of a websocket client. The upgrade of
-- the connection, logs and metrics are left out. What the JSON and the character set libraries make
-- of a message is a parameter, and so are random numbers.
pub mod Loop
pub mod Offers
mod Tests
use trunker.Base.{
  ℕ, zero, suc, ◌+◌, ◌-◌, ◌*◌, ◌/◌, ◌%◌, ◌^◌, ◌≤◌, ◌<◌, min, ◌≡◌, refl, sym, ap, ap₂, ◌∙◌, ◌≢◌, ◌↔◌,
  ◌⊎◌, inl, inr, Bool, true, false, not, ◌&&◌, ◌||◌, Option, none, some, List, [], ◌∷◌, ◌++◌, map,
  arith, ltb, leb, ◌==◌, if◌then◌else◌, ltb→lt, lt→ltb, leb→le, ==_iff, tests, Bool-cases,
  Option-cases, is_some, get_or_else, or_else, length, take, drop, replicate, All, filter, count,
  length-append, All-append, take-append, drop-append, filter_skip, filter_add, length-take,
  length-drop, count-append,
}
use trunker.Base.Bytes.{Bytes, codes, eq_bytes}
use trunker.Base.Int.{ℤ, pos, le_ℕ, eq_ℕ}
use trunker.Base.Equality.{bytes_eq}
use trunker.Mapx.Entries.{insert}
use trunker.Net.{IpAddr}
use trunker.Peer.{Peer, Offer, OfferDetail, webtorrent, Source}
use trunker.Request.{AnnounceRequest, ScrapeFile}
use trunker.Http.Announce.{valid_announce_req}
use trunker.Mux.{get_at}
use trunker.Tracker.{Outcome, done, failed, Action, and_then, ◌>>=◌, return}

-- The JSON objects that are written.
pub data Message : Type 0 where
  failure_reason : Bytes → Message
  announced : ℤ → ScrapeFile → Bytes → Message
  scraped : List (Bytes × ScrapeFile) → Message
  offered : Bytes → Bytes → Bytes → OfferDetail → Message

-- The websocket manager and its connections, as the handler calls them: the last two are
-- Conn.WriteJSON and Conn.Close.
pub record WsManager : Type 1 where
  pub State : Type 0
  pub handle_announce_peer : AnnounceRequest → Action State (List Peer)
  pub scrape : Bytes → Action State ScrapeFile
  pub answer_to_peer : Bytes → Bytes → Bytes → Action State (Unit {0})
  pub write_json : ℕ → Message → Action State (Unit {0})
  pub close : ℕ → State → State

-- `get` is a string under a key, or the error; `hashes` the strings under info_hash, in a list or
-- alone; `latin1` and `utf8` are TransUTF8To8859_1 and Trans8859_1ToUTF8.
pub record Json : Type 0 where
  pub get : Bytes → Bytes → Outcome Bytes
  pub has_answer : Bytes → Bool
  pub unmarshal : Bytes → Outcome AnnounceRequest
  pub hashes : Bytes → Outcome (List Bytes)
  pub latin1 : Bytes → Bytes
  pub utf8 : Bytes → Bytes

abbrev pub lift : {S A : Type 0} → Outcome A → Action S A
lift o s = (s, o)

-- `choose.Slice(offers).One()`: the offer at a random number.
unfoldable pub pick_one : ℕ → Offer → List Offer → Offer
unfolding get_at
pick_one r o os = get_or_else (get_at (r % suc (length os)) (o ∷ os)) o

-- Equally many offers and peers: the i-th offer is for the i-th peer.
unfoldable pub offers_in_order : Bytes → List Offer → List Peer → List (Peer × Offer)
offers_in_order own (o ∷ os) (to ∷ res) =
    let rest = offers_in_order own os res in if eq_bytes to.id own then rest else (to, o) ∷ rest
offers_in_order own _ _ = []

-- `random i` is the number drawn for the i-th peer from the end.
unfoldable pub offers_at_random :
    (ℕ → ℕ) → Bytes → Offer → List Offer → List Peer → List (Peer × Offer)
unfolding pick_one
offers_at_random random own o os [] = []
offers_at_random random own o os (p ∷ res) =
    let rest = offers_at_random random own o os res in
    if eq_bytes p.id own then rest else (p, pick_one (random (length res)) o os) ∷ rest

-- The offers of a request for the peers of its answer.
unfoldable pub offers_for : (ℕ → ℕ) → Bytes → List Offer → List Peer → List (Peer × Offer)
unfolding offers_in_order offers_at_random
offers_for random own [] res = []
offers_for random own (o ∷ os) res =
    if length (o ∷ os) == length res
    then offers_in_order own (o ∷ os) res
    else offers_at_random random own o os res

module _ (json : Json) (m : WsManager) where
  unfoldable pub send_offer : Bytes → Bytes → Peer × Offer → Action m.State (Unit {0})
  send_offer info_hash peer_id (target, o) = elim target.conn [
    | none ↦ return tt
    | some c ↦ m.write_json c (offered (json.utf8 info_hash) o.offer_id peer_id o.offer)
  ]

  -- An offer that cannot be sent is only logged.
  unfoldable pub send_offers : Bytes → Bytes → List (Peer × Offer) → m.State → m.State
  unfolding send_offer
  send_offers info_hash peer_id [] s = s
  send_offers info_hash peer_id (x ∷ xs) s =
      send_offers info_hash peer_id xs (send_offer info_hash peer_id x s).0

  unfoldable pub handle_ws_answer : Bytes → Action m.State (Unit {0})
  handle_ws_answer msg = do
    info_hash ← lift (json.get msg (codes "info_hash"))
    peer_id ← lift (json.get msg (codes "to_peer_id"))
    if length (json.latin1 peer_id) == 0
        then lift (failed (codes "invalid peerId"))
        else m.answer_to_peer (json.latin1 info_hash) (json.latin1 peer_id) msg

  -- The request that is made of a message from connection `c`.
  unfoldable pub prepare : IpAddr → Bytes → ℕ → AnnounceRequest → AnnounceRequest
  prepare remote user_agent c req = record req {
    client_ip = remote;
    user_agent = user_agent;
    num_want = if eq_ℕ req.num_want 0 || not (le_ℕ req.num_want 500) then pos 50 else req.num_want;
    conn = some c;
    type = webtorrent;
    source = Source.ws;
  }

  unfoldable pub latin1_ids : AnnounceRequest → AnnounceRequest
  latin1_ids req = record req {
    info_hash = json.latin1 req.info_hash;
    peer_id = json.latin1 req.peer_id;
  }

  unfoldable pub announce_prepared : (ℕ → ℕ) → ℤ → ℕ → AnnounceRequest → Action m.State (Unit {0})
  unfolding send_offers offers_for
  announce_prepared random interval c req = do
    res ← m.handle_announce_peer req
    file ← m.scrape req.info_hash
    u ← m.write_json c (announced interval file (json.utf8 req.info_hash))
    λ s. (
      send_offers req.info_hash req.peer_id (offers_for random req.peer_id req.offers res) s,
      done tt,
    )

  unfoldable pub handle_ws_announce :
      IpAddr → Bytes → (ℕ → ℕ) → ℤ → ℕ → Bytes → Action m.State (Unit {0})
  unfolding prepare latin1_ids announce_prepared valid_announce_req
  handle_ws_announce remote user_agent random interval c msg = do
    req ← lift (json.unmarshal msg)
    if valid_announce_req (latin1_ids req)
        then announce_prepared random interval c (prepare remote user_agent c (latin1_ids req))
        else lift (failed (codes "invalid request"))

  unfoldable pub scrape_hashes :
      List Bytes → List (Bytes × ScrapeFile) → Action m.State (List (Bytes × ScrapeFile))
  unfolding insert
  scrape_hashes [] ret = return ret
  scrape_hashes (h ∷ hs) ret = do
    file ← m.scrape (json.latin1 h)
    scrape_hashes hs (insert h file ret)

  unfoldable pub handle_ws_scrape : ℕ → Bytes → Action m.State (Unit {0})
  unfolding scrape_hashes
  handle_ws_scrape c msg = do
    hashes ← lift (json.hashes msg)
    if length hashes == 0
        then lift (failed (codes "info_hash can't be empty"))
        else do files ← scrape_hashes hashes []; m.write_json c (scraped files)
