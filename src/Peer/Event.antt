-- ===== src/Peer/Event.antt =====
-- common.PeerEvent of biz/services/peer/common/peer.go, an int8; `other` is a value with no name.
use trunker.Base.{ℕ, ◌%◌, ◌≡◌, refl, Bool, true, false, arith, ◌==◌, if◌then◌else◌, ◌↔◌}
use trunker.Base.Bytes.{Bytes, codes, eq_bytes}

pub data PeerEvent : Type 0 where
  unknown started stopped completed : PeerEvent
  other : ℕ → PeerEvent

-- The conversion `PeerEvent(n)` of an unsigned number: the low byte counts.
unfoldable pub peer_event : ℕ → PeerEvent
peer_event n =
    let b = n % 256 in
    if b == 0
    then unknown
    else if b == 1
    then started
    else if b == 2
    then stopped
    else if b == 3
    then completed
    else other b

unfoldable pub eq_event : PeerEvent → PeerEvent → Bool
eq_event unknown unknown = true
eq_event started started = true
eq_event stopped stopped = true
eq_event completed completed = true
eq_event (other m) (other n) = m == n
eq_event _ _ = false

unfoldable pub parse_peer_event : Bytes → PeerEvent
parse_peer_event s =
    if eq_bytes s (codes "started")
    then started
    else if eq_bytes s (codes "stopped")
    then stopped
    else if eq_bytes s (codes "completed")
    then completed
    else unknown

-- `String()`.
unfoldable pub to_string : PeerEvent → Bytes
to_string started = codes "started"
to_string stopped = codes "stopped"
to_string completed = codes "completed"
to_string _ = codes "unknown"

pub eq_event_iff : (a b : PeerEvent) → (eq_event a b ≡ true) ↔ (a ≡ b)
unfolding eq_event
eq_event_iff (other m) (other n) = ground arith
eq_event_iff _ _ = ground arith

-- Printing an event and parsing it back gives the event, and gives `unknown` for a value with no
-- name.
pub parse_peer_event-to_string :
    (e : PeerEvent)
    → parse_peer_event (to_string e) ≡ (elim e [
      | other n ↦ unknown
      | started ↦ started
      | stopped ↦ stopped
      | completed ↦ completed
      | unknown ↦ unknown
    ])
unfolding parse_peer_event to_string eq_bytes
parse_peer_event-to_string started = refl
parse_peer_event-to_string _ = refl
