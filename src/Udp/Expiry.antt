-- ===== src/Udp/Expiry.antt =====
-- `cleanConnection` of biz/services/udp_server/connect.go.
use trunker.Base.{
  ℕ, ◌+◌, ◌≡◌, refl, ◌∙◌, inl, inr, Option, none, some, List, [], ◌∷◌, arith, ltb, leb,
  if◌then◌else◌, Bool-cases,
}
use trunker.Base.Equality.{nat_eq}
use trunker.Mapx.Entries.{lookup, DistinctKeys, lookup-erase}
use trunker.Mapx.SyncMap.{load, delete, range}
use trunker.Mapx.SyncMap.Laws.{IsCounted}
use trunker.Udp.Connect.{Connection, Connections, connection_timeout, clean_list, clean_connection}

-- A connection that was made within the timeout before `now`.
abbrev pub if_fresh : ℕ → Option Connection → Option Connection
if_fresh now none = none
if_fresh now (some c) = if leb now (c.time + connection_timeout) then some c else none

-- The binding of a key after the range has visited the first binding, if it does.
abbrev after_visit : ℕ → Option Connection → Option Connection → Option Connection
after_visit now none o = o
after_visit now (some c) o = if leb now (c.time + connection_timeout) then o else none

after_visit_fresh : (now : ℕ) (o : Option Connection) → after_visit now o o ≡ if_fresh now o
after_visit_fresh now none = refl
after_visit_fresh now (some c) = refl

-- The range deletes the visited connections that have expired.
clean_list_lem :
    (j now : ℕ) (es : List (ℕ × Connection)) (conns : Connections)
    → DistinctKeys es
    → load j (clean_list now es conns) ≡ after_visit now (lookup j es) (load j conns)
unfolding clean_list lookup load delete
clean_list_lem j now [] conns d = refl
clean_list_lem j now ((id, c) ∷ es) conns d =
    elim (Bool-cases (ltb (c.time + connection_timeout) now)) [
      | inl old ↦ ground (
        arith,
        old,
        d.0,
        lookup-erase j id conns.m,
        clean_list_lem j now es (delete id conns).0 d.1,
      )
      | inr fresh ↦ ground (arith, fresh, d.0, clean_list_lem j now es conns d.1)
    ]

-- Cleaning deletes exactly the connections that are older than the timeout.
pub load-clean_connection :
    (j now : ℕ) (conns : Connections)
    → IsCounted conns
    → load j (clean_connection now conns) ≡ if_fresh now (load j conns)
unfolding clean_connection range load
load-clean_connection j now conns h =
    clean_list_lem j now conns.m conns h.distinct ∙ after_visit_fresh now (load j conns)
