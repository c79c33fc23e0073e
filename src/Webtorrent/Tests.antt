-- ===== src/Webtorrent/Tests.antt =====
-- A client whose second message has no action, and the offers of an announce.
use trunker.Base.{◌≡◌, refl, false, none, some, List, [], ◌∷◌, ◌++◌, map, arith, filter}
use trunker.Base.Bytes.{Bytes, codes}
use trunker.Base.Int.{pos}
use trunker.Peer.{Peer, Offer, webtorrent, Source}
use trunker.Peer.Event.{started}
use trunker.Tracker.{Outcome, done, failed}
use trunker.Webtorrent.{failure_reason, WsManager, Json, offers_for}
use trunker.Webtorrent.Loop.{Client, message, loop, handle_all, loop_messages}
use trunker.Webtorrent.Offers.{is_other, offers_for-peers}

-- Keeps the torrents that are scraped and what is written.
abbrev manager : WsManager
manager = record {
  State = List Bytes;
  handle_announce_peer = λ req s. (s, done []);
  scrape = λ hash s.
      (hash ∷ s, done (record { seeder = 0; complete = 0; incomplete = 0; downloaded = 0 }));
  answer_to_peer = λ hash id msg s. (s, done tt);
  write_json = λ c msg s. (codes "written" ∷ s, done tt);
  close = λ c s. s;
}

-- A message of two bytes is a scrape; no other has an action.
abbrev get : Bytes → Bytes → Outcome Bytes
get (a ∷ b ∷ []) key = done (codes "scrape")
get msg key = failed (codes "no such key")

abbrev json : Json
json = record {
  get = get;
  has_answer = λ msg. false;
  unmarshal = λ msg. failed [];
  hashes = λ msg. done (msg ∷ []);
  latin1 = λ b. b;
  utf8 = λ b. b;
}

abbrev client : Client
client = record { remote = none; user_agent = []; conn = 4; random = λ i. i; interval = pos 60 }

abbrev conversation : List Bytes
conversation = (0 ∷ 7 ∷ []) ∷ (9 ∷ []) ∷ (0 ∷ 8 ∷ []) ∷ []

loop_messages_example :
    loop json manager client (map message conversation ++ []) []
    ≡ elim (handle_all json manager client conversation []).1 as (λ x. List Bytes) [
      | done u ↦ loop json manager client [] (handle_all json manager client conversation []).0
      | failed e ↦ manager.close client.conn (
          manager.close client.conn
            (manager.write_json client.conn
              (failure_reason e)
              (handle_all json manager client conversation []).0).0)
    ]
loop_messages_example = loop_messages json manager client conversation [] []

-- The first message is handled, and the second fails.
refused_second :
    handle_all json manager client conversation []
    ≡ (codes "written" ∷ (0 ∷ 7 ∷ []) ∷ [], failed (codes "get action error"))
unfolding handle_all
refused_second = refl

abbrev peer : Bytes → Peer
peer id = record {
  ip = none;
  ipv4 = none;
  ipv6 = none;
  client_ip = none;
  last_seen = 0;
  offers = [];
  id = id;
  user_agent = [];
  port = pos 0;
  left = 1;
  uploaded = 0;
  downloaded = 0;
  conn = some 1;
  type = webtorrent;
  event = started;
  source = Source.ws;
}

abbrev offer : Offer
offer = record { offer_id = codes "o"; offer = record { type = codes "offer"; sdp = [] } }

offers_for-peers_example :
    map (λ x. x.0) (offers_for (λ i. 3) (1 ∷ []) (offer ∷ []) (peer (1 ∷ []) ∷ peer (2 ∷ []) ∷ []))
    ≡ filter (is_other (1 ∷ [])) (peer (1 ∷ []) ∷ peer (2 ∷ []) ∷ [])
offers_for-peers_example =
    offers_for-peers (λ i. 3) (1 ∷ []) (offer ∷ []) (peer (1 ∷ []) ∷ peer (2 ∷ []) ∷ [])
      (omega arith)
