-- ===== src/Webtorrent/Loop.antt =====
-- HandleWebTorrent: the loop over the messages of one client.
use trunker.Base.{ℕ, ◌≡◌, refl, ◌∙◌, List, [], ◌∷◌, ◌++◌, map, if◌then◌else◌}
use trunker.Base.Bytes.{Bytes, codes, eq_bytes}
use trunker.Base.Int.{ℤ}
use trunker.Net.{IpAddr}
use trunker.Tracker.{Outcome, done, failed, Action, and_then, ◌>>=◌, return}
use trunker.Webtorrent.{
  failure_reason, WsManager, Json, handle_ws_answer, handle_ws_announce, handle_ws_scrape,
}

-- What ReadMessage gives: a message, a regular end, or another error.
pub data Read : Type 0 where
  message : Bytes → Read
  close_error read_error : Read

-- The client: its address, its program and its connection; and the random numbers.
pub record Client : Type 0 where
  pub remote : IpAddr
  pub user_agent : Bytes
  pub conn : ℕ
  pub random : ℕ → ℕ
  pub interval : ℤ

module _ (json : Json) (m : WsManager) (client : Client) where
  -- The switch on the action. An answer that fails is only logged.
  unfoldable pub dispatch : Bytes → Bytes → Action m.State (Unit {0})
  unfolding handle_ws_answer handle_ws_announce handle_ws_scrape eq_bytes
  dispatch action msg s =
      if eq_bytes action (codes "announce")
      then (if json.has_answer msg
          then ((handle_ws_answer json m msg s).0, done tt)
          else handle_ws_announce json m client.remote client.user_agent client.random
              client.interval client.conn msg s)
      else if eq_bytes action (codes "scrape")
      then handle_ws_scrape json m client.conn msg s
      else (s, failed (codes "invalid action"))

  -- The error of a message, with that of an action that cannot be read.
  unfoldable pub handle_message : Bytes → Action m.State (Unit {0})
  unfolding dispatch
  handle_message msg s = elim (json.get msg (codes "action")) [
    | failed e ↦ (s, failed (codes "get action error"))
    | done action ↦ dispatch action msg s
  ]

  -- ResponseErr, Close, and the Close that is deferred.
  unfoldable pub give_up : Bytes → m.State → m.State
  give_up e s =
      m.close client.conn (m.close client.conn (m.write_json client.conn (failure_reason e) s).0)

  unfoldable pub loop : List Read → m.State → m.State
  unfolding handle_message give_up
  loop [] s = s
  loop (close_error ∷ rest) s = m.close client.conn (m.close client.conn s)
  loop (read_error ∷ rest) s = m.close client.conn s
  loop (message msg ∷ rest) s =
      let (s', result) = handle_message msg s in
      elim result [ done u ↦ loop rest s' | failed e ↦ give_up e s' ]

  -- The messages one after the other, up to the first that fails.
  unfoldable pub handle_all : List Bytes → Action m.State (Unit {0})
  unfolding handle_message
  handle_all [] = return tt
  handle_all (msg ∷ msgs) = do u ← handle_message msg; handle_all msgs

  -- The client after these messages and before the reads that follow.
  after : List Read → m.State × Outcome (Unit {0}) → m.State
  unfolding loop
  after reads (s, done u) = loop reads s
  after reads (s, failed e) =
      m.close client.conn (m.close client.conn (m.write_json client.conn (failure_reason e) s).0)

  step :
      (msgs : List Bytes) (reads : List Read) (r : m.State × Outcome (Unit {0}))
      → ((t : m.State) → loop (map message msgs ++ reads) t ≡ after reads (handle_all msgs t))
      → elim r.1 as (λ x. m.State) [
        | done u ↦ loop (map message msgs ++ reads) r.0
        | failed e ↦ give_up e r.0
      ]
        ≡ after reads (and_then (λ u. handle_all msgs) r)
  unfolding after give_up
  step msgs reads (t, done u) ih = ih t
  step msgs reads (t, failed e) ih = refl

  loop-after :
      (msgs : List Bytes) (reads : List Read) (s : m.State)
      → loop (map message msgs ++ reads) s ≡ after reads (handle_all msgs s)
  unfolding loop handle_all after
  loop-after [] reads s = refl
  loop-after (msg ∷ msgs) reads s =
      step msgs reads (handle_message msg s) (λ t. loop-after msgs reads t)

  -- The messages of a client are handled one after the other. If all are handled without an error,
  -- what is read next is dealt with in the state that they leave. At the first error the client is
  -- sent the error as its failure reason, its connection is closed twice, and neither the messages
  -- behind it nor anything else of the client is read.
  pub loop_messages :
      (msgs : List Bytes) (reads : List Read) (s : m.State)
      → loop (map message msgs ++ reads) s ≡ elim (handle_all msgs s).1 as (λ x. m.State) [
        | done u ↦ loop reads (handle_all msgs s).0
        | failed e ↦ m.close client.conn (
            m.close client.conn
              (m.write_json client.conn (failure_reason e) (handle_all msgs s).0).0)
      ]
  unfolding after
  loop_messages msgs reads s = loop-after msgs reads s ∙ shown (handle_all msgs s)
    where
      shown :
          (r : m.State × Outcome (Unit {0}))
          → after reads r ≡ elim r.1 as (λ x. m.State) [
            | done u ↦ loop reads r.0
            | failed e ↦
                m.close client.conn
                  (m.close client.conn (m.write_json client.conn (failure_reason e) r.0).0)
          ]
      shown (t, done u) = refl
      shown (t, failed e) = refl
