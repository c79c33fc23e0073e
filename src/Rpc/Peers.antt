-- ===== src/Rpc/Peers.antt =====
-- A peer through a call between servers (biz/services/peer/rpc/adaptor.go).
use trunker.Base.{ℕ, ◌*◌, ◌/◌, ◌^◌, ◌<◌, ◌≡◌, refl, sym, ap, ◌∙◌, none, arith}
use trunker.Base.Int.{pos, wrap, signed64}
use trunker.Config.{second}
use trunker.Peer.{Peer}
use trunker.Rpc.{signed32, peer_common_to_idl, peer_idl_to_common}

-- The numbers of a peer are of their Go types, and the port fits 31 bits.
pub record IsPeer (p : Peer) : Type 0 where
  pub port_number : ℕ
  pub port_lt : port_number < 2 ^ 31
  pub has_port : p.port ≡ pos port_number
  pub left_lt : p.left < 2 ^ 64
  pub uploaded_lt : p.uploaded < 2 ^ 64
  pub downloaded_lt : p.downloaded < 2 ^ 64

pub wrap-signed64 : (w : ℕ) → w < 2 ^ 64 → wrap 64 (signed64 w) ≡ w
unfolding wrap signed64
wrap-signed64 w h = ground (arith, h)

pub signed32_same : (n : ℕ) → n < 2 ^ 31 → signed32 (pos n) ≡ pos n
unfolding signed32 wrap
signed32_same n h = ground (arith, h)

-- A peer comes back from the form of the calls as it was, without its connection and with the time
-- of its last announce cut to whole seconds.
pub peer_idl_to_common-peer_common_to_idl :
    (p : Peer)
    → IsPeer p
    → peer_idl_to_common (peer_common_to_idl p)
      ≡ record p { last_seen = p.last_seen / second * second; conn = none }
unfolding peer_common_to_idl peer_idl_to_common
peer_idl_to_common-peer_common_to_idl p h =
    rw
      (
        wrap-signed64 p.left h.left_lt,
        wrap-signed64 p.uploaded h.uploaded_lt,
        wrap-signed64 p.downloaded h.downloaded_lt,
        ap signed32 h.has_port ∙ (signed32_same h.port_number h.port_lt ∙ sym h.has_port),
      )
      refl
