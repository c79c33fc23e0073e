-- ===== src/Udp/Session.antt =====
-- A UDP server and its manager under any sequence of requests and cleanings
-- (biz/services/udp_server/server.go and connect.go), one request after another. `granted` collects
-- the connection ids that were made, each with the address it was made for.
use trunker.Base.{
  ℕ, ◌+◌, ◌≡◌, refl, sym, ap, ◌∙◌, ◌⊎◌, inl, inr, Bool, true, false, not, ◌&&◌, ◌||◌, Option, none,
  some, List, [], ◌∷◌, ◌++◌, arith, ltb, ◌==◌, if◌then◌else◌, Bool-cases, Option-cases, length,
  drop,
}
use trunker.Base.Bytes.{Bytes, eq_bytes, eq_bytes_iff, codes, get_be, slice}
use trunker.Base.Equality.{nat_eq}
use trunker.Config.{Config}
use trunker.Net.{IpAddr}
use trunker.Mapx.Entries.{lookup, lookup-erase, lookup-insert}
use trunker.Mapx.SyncMap.{new_sync_map, load, delete, load_or_store, range}
use trunker.Tracker.{Outcome, done, failed, PeerManager}
use trunker.Udp.Connect.{
  connection_timeout, Connection, Connections, register, clean_list, clean_connection,
}
use trunker.Udp.Parse.{protocol_id, action_connect, action_announce, action_scrape}
use trunker.Udp.Serve.{
  Turn, answer, handle_announce, handle_scrape, handle_connection, dispatch, handle_request,
}

abbrev pub connection_id : Bytes → ℕ
connection_id buf = get_be (slice 0 8 buf)

-- A request for a connection.
unfoldable pub is_connect : Bytes → Bool
is_connect buf =
    not (ltb (length buf) 16)
    && (connection_id buf == protocol_id && get_be (slice 8 12 buf) == action_connect)

-- The connection that a request asks for and gets.
unfoldable pub grant : Bytes → Outcome ℕ → Bytes → List (Bytes × ℕ)
grant remote new_id buf = elim new_id [
  | failed e ↦ []
  | done cid ↦ if is_connect buf then (remote, cid) ∷ [] else []
]

-- Whether the id was made for the address.
unfoldable pub was_granted : Bytes → ℕ → List (Bytes × ℕ) → Bool
was_granted remote id [] = false
was_granted remote id ((r, i) ∷ granted) =
    (eq_bytes r remote && i == id) || was_granted remote id granted

module _ (m : PeerManager) where
  pub data Reached : Connections → m.State → List (Bytes × ℕ) → Type 0 where
    start : (s : m.State) → Reached new_sync_map s []
    request :
        {conns : Connections} {s : m.State} {granted : List (Bytes × ℕ)} (cfg : Config)
        (now jitter : ℕ) (remote : Bytes) (remote_ip : IpAddr) (new_id : Outcome ℕ)
        (wrote : Option Bytes) (buf : Bytes)
        → Reached conns s granted
        → Reached
            (handle_request m cfg now jitter remote remote_ip new_id wrote buf conns s).connections
            (handle_request m cfg now jitter remote remote_ip new_id wrote buf conns s).state
            (grant remote new_id buf ++ granted)
    cleaned :
        {conns : Connections} {s : m.State} {granted : List (Bytes × ℕ)} (now : ℕ)
        → Reached conns s granted
        → Reached (clean_connection now conns) s granted

-- Every connection was granted to its address.
IsGranted : Connections → List (Bytes × ℕ) → Type 0
IsGranted conns granted =
    (id : ℕ) (c : Connection) → load id conns ≡ some c → was_granted c.remote_addr id granted ≡ true

register-IsGranted :
    (remote : Bytes) (now cid : ℕ) (conns : Connections) (granted : List (Bytes × ℕ))
    → IsGranted conns granted
    → IsGranted (register remote now cid conns) ((remote, cid) ∷ granted)
unfolding register load_or_store load IsGranted was_granted
register-IsGranted remote now cid conns granted g id c e = ground (
  arith,
  g id c,
  e,
  eq_bytes_iff remote remote,
  lookup-insert id cid (record { id = cid; remote_addr = remote; time = now }) conns.m,
)

delete-IsGranted :
    (id : ℕ) (conns : Connections) (granted : List (Bytes × ℕ))
    → IsGranted conns granted
    → IsGranted (delete id conns).0 granted
unfolding IsGranted delete load
delete-IsGranted id conns granted g j c e = ground (arith, g j c, e, lookup-erase j id conns.m)

clean_list-IsGranted :
    (now : ℕ) (es : List (ℕ × Connection)) (conns : Connections) (granted : List (Bytes × ℕ))
    → IsGranted conns granted
    → IsGranted (clean_list now es conns) granted
unfolding clean_list
clean_list-IsGranted now [] conns granted g = g
clean_list-IsGranted now ((id, c) ∷ es) conns granted g =
    elim (Bool-cases (ltb (c.time + connection_timeout) now)) [
      | inl old ↦
          rw old (clean_list-IsGranted now es _ granted (delete-IsGranted id conns granted g))
      | inr fresh ↦ rw fresh (clean_list-IsGranted now es conns granted g)
    ]

more-IsGranted :
    (remote : Bytes) (new_id : Outcome ℕ) (buf : Bytes) (conns : Connections)
    (granted : List (Bytes × ℕ))
    → IsGranted conns granted
    → IsGranted conns (grant remote new_id buf ++ granted)
unfolding grant IsGranted was_granted
more-IsGranted remote (failed e) buf conns granted g = g
more-IsGranted remote (done cid) buf conns granted g = elim (Bool-cases (is_connect buf)) [
  | inl asks ↦ rw asks (λ id c e. ground (arith, g id c e))
  | inr asks ↦ rw asks g
]

connect-IsGranted :
    (m : PeerManager) (remote : Bytes) (now tid : ℕ) (new_id : Outcome ℕ) (wrote : Option Bytes)
    (buf : Bytes) (conns : Connections) (s : m.State)
    → is_connect buf ≡ true
    → (granted : List (Bytes × ℕ)) → IsGranted conns granted
    → IsGranted
        (handle_connection m remote now tid new_id wrote conns s).connections
        (grant remote new_id buf ++ granted)
unfolding grant handle_connection
connect-IsGranted m remote now tid (failed e) wrote buf conns s c granted g = g
connect-IsGranted m remote now tid (done cid) wrote buf conns s c granted g =
    rw c (register-IsGranted remote now cid conns granted g)

connect_quiet :
    (m : PeerManager) (remote : Bytes) (now tid : ℕ) (new_id : Outcome ℕ) (wrote : Option Bytes)
    (conns : Connections) (s : m.State)
    → ((handle_connection m remote now tid new_id wrote conns s).state ≡ s)
      × (((handle_connection m remote now tid new_id wrote conns s).context ≡ none)
          ⊎ ((handle_connection m remote now tid new_id wrote conns s).context
              ≡ some (codes "connection")))
unfolding handle_connection
connect_quiet m remote now tid (failed e) wrote conns s = (refl, inr refl)
connect_quiet m remote now tid (done cid) wrote conns s = (refl, inr refl)

answer-connections :
    (m : PeerManager) (conns : Connections) (tid : ℕ) (label : Bytes)
    (out : m.State × Outcome Bytes)
    → (answer m conns tid label out).connections ≡ conns
answer-connections m conns tid label (s, done packet) = refl
answer-connections m conns tid label (s, failed e) = refl

module _ (m : PeerManager) (cfg : Config) (now jitter : ℕ) (remote : Bytes) (remote_ip : IpAddr)
    (new_id : Outcome ℕ) (wrote : Option Bytes) (buf : Bytes) (conns : Connections)
    (s : m.State) where
  abbrev turn : Turn m
  turn = handle_request m cfg now jitter remote remote_ip new_id wrote buf conns s

  -- A turn that leaves the connections and the manager as they are, and has no label.
  abbrev IsRefused : Turn m → Type 0
  IsRefused t = (t.connections ≡ conns) × (t.state ≡ s) × (t.context ≡ none)

  abbrev served : Turn m
  served =
      dispatch m cfg jitter remote_ip (get_be (slice 8 12 buf)) (get_be (slice 12 16 buf))
        (drop 16 buf) conns s

  handle_request_cases :
      IsRefused turn
      ⊎ (((is_connect buf ≡ true)
            × (turn
                ≡ handle_connection m remote now (get_be (slice 12 16 buf)) new_id wrote conns s))
          ⊎ ((c : Connection) × (load (connection_id buf) conns ≡ some c)
              × (c.remote_addr ≡ remote)
              × (turn ≡ served)))
  unfolding handle_request is_connect
  handle_request_cases = elim (Bool-cases (ltb (length buf) 16)) [
    | inl short ↦ inl (rw short (refl, refl, refl))
    | inr long ↦
        let asks = connection_id buf == protocol_id && get_be (slice 8 12 buf) == action_connect in
        elim (Bool-cases asks) [
          | inl c ↦ inr (inl (rw (long, c) refl, rw (long, c) refl))
          | inr c ↦ elim (Option-cases (load (connection_id buf) conns)) [
            | inl e ↦ inl (rw (long, c, e) (refl, refl, refl))
            | inr (con, e) ↦ elim (Bool-cases (eq_bytes con.remote_addr remote)) [
              | inl own ↦ inr (
                  inr (
                    con,
                    e,
                    (eq_bytes_iff con.remote_addr remote).0 own,
                    rw (long, c, e, own) refl,
                  ))
              | inr other ↦ inl (rw (long, c, e, other) (refl, refl, refl))
            ]
          ]
        ]
  ]

  served-connections : served.connections ≡ conns
  unfolding dispatch
  served-connections =
      let tid = get_be (slice 12 16 buf) in
      let body = drop 16 buf in
      elim (Bool-cases (get_be (slice 8 12 buf) == action_announce)) [
        | inl e ↦
            rw e
              (answer-connections m conns tid _ (handle_announce m cfg jitter remote_ip tid body s))
        | inr e ↦ elim (Bool-cases (get_be (slice 8 12 buf) == action_scrape)) [
          | inl f ↦ rw (e, f) (answer-connections m conns tid _ (handle_scrape m tid body s))
          | inr f ↦ rw (e, f) refl
        ]
      ]

  -- A request changes the connections only by a grant.
  request-IsGranted :
      (granted : List (Bytes × ℕ))
      → IsGranted conns granted
      → IsGranted turn.connections (grant remote new_id buf ++ granted)
  request-IsGranted granted g = elim handle_request_cases [
    | inl refused ↦ rw refused.0 (more-IsGranted remote new_id buf conns granted g)
    | inr (inl (c, e)) ↦
        rw e (connect-IsGranted m remote now _ new_id wrote buf conns s c granted g)
    | inr (inr (con, e, own, t)) ↦
        rw (t, served-connections) (more-IsGranted remote new_id buf conns granted g)
  ]

clean_connection-IsGranted :
    (now : ℕ) (conns : Connections) (granted : List (Bytes × ℕ))
    → IsGranted conns granted
    → IsGranted (clean_connection now conns) granted
unfolding clean_connection
clean_connection-IsGranted now conns = clean_list-IsGranted now (range conns) conns

-- At every reached point, every connection was granted to its address.
Reached-IsGranted :
    (m : PeerManager) {conns : Connections} {s : m.State} {granted : List (Bytes × ℕ)}
    → Reached m conns s granted
    → IsGranted conns granted
unfolding IsGranted load new_sync_map lookup
Reached-IsGranted m (start s) = λ id c e. ground (arith, e)
Reached-IsGranted m (request cfg now jitter remote remote_ip new_id wrote buf r) =
    request-IsGranted m cfg now jitter remote remote_ip new_id wrote buf _ _ _
      (Reached-IsGranted m r)
Reached-IsGranted m (cleaned now r) = clean_connection-IsGranted now _ _ (Reached-IsGranted m r)

module _ (m : PeerManager) (cfg : Config) (now jitter : ℕ) (remote : Bytes) (remote_ip : IpAddr)
    (new_id : Outcome ℕ) (wrote : Option Bytes) (buf : Bytes) (conns : Connections)
    (s : m.State) where
  -- Once the server has run, whatever requests came from whatever addresses: a turn leaves the
  -- manager as it is and answers neither an announce nor a scrape, unless the id that the request
  -- names was made for the very address that the request comes from.
  pub served_lem :
      (granted : List (Bytes × ℕ))
      → Reached m conns s granted
      → let t = handle_request m cfg now jitter remote remote_ip new_id wrote buf conns s in
        (was_granted remote (connection_id buf) granted ≡ true)
        ⊎ ((t.state ≡ s) × ((t.context ≡ none) ⊎ (t.context ≡ some (codes "connection"))))
  unfolding IsGranted
  served_lem granted r =
      elim (handle_request_cases m cfg now jitter remote remote_ip new_id wrote buf conns s) [
        | inl refused ↦ inr (refused.1, inl refused.2)
        | inr (inl (c, e)) ↦ inr (rw e (connect_quiet m remote now _ new_id wrote conns s))
        | inr (inr (con, e, own, t)) ↦ inl (
            sym (ap (λ a. was_granted a (connection_id buf) granted) own)
            ∙ (Reached-IsGranted m r (connection_id buf) con e))
      ]
