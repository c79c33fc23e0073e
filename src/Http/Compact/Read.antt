-- ===== src/Http/Compact/Read.antt =====
-- A client's reading of the compact form of a list of peers.
use trunker.Base.{
  ◌≤◌, ◌≡◌, refl, ap, ◌∙◌, inl, inr, Bool, true, false, not, List, [], ◌∷◌, ◌++◌, arith,
  Option-cases, is_some, length, filter,
}
use trunker.Base.Bytes.{put_be}
use trunker.Base.Int.{wrap}
use trunker.Net.{to4, to16}
use trunker.Peer.{Peer, get_ip}
use trunker.Udp.Serve.{peer_entry, peer_entries}
use trunker.Udp.Answer.{read_entries, reachable, length-reachable-le, read_entries-peer_entries}
use trunker.Http.Compact.{peers_to_compact}

-- Whether the peer's address has no form of IPv4.
abbrev pub has_no_v4 : Bool → Peer → Bool
has_no_v4 u p = not (is_some (to4 (get_ip u p)))

length-filter-le : (f : Peer → Bool) (ps : List Peer) → length (filter f ps) ≤ length ps
length-filter-le f [] = omega arith
length-filter-le f (p ∷ ps) = ground (arith, length-filter-le f ps)

peers_to_compact-peer_entries :
    (u : Bool) (ps : List Peer)
    → (peers_to_compact u ps).0 ≡ peer_entries u false ps
      × (peers_to_compact u ps).1 ≡ peer_entries u true (filter (has_no_v4 u) ps)
unfolding peers_to_compact peer_entries peer_entry
peers_to_compact-peer_entries u [] = (refl, refl)
peers_to_compact-peer_entries u (p ∷ ps) =
    let (peers, peers6) = peers_to_compact-peer_entries u ps in
    elim (Option-cases (to4 (get_ip u p))) [
      | inr (b, e) ↦
          rw (e, peers_to_compact, peer_entries, peer_entry)
            (ap (λ r. (b ++ put_be 2 (wrap 16 p.port)) ++ r) peers, peers6)
      | inl e ↦ elim (Option-cases (to16 (get_ip u p))) [
        | inr (b, f) ↦
            rw (e, f, peers_to_compact, peer_entries, peer_entry)
              (peers, ap (λ r. (b ++ put_be 2 (wrap 16 p.port)) ++ r) peers6)
        | inl f ↦ rw (e, f, peers_to_compact, peer_entries, peer_entry) (peers, peers6)
      ]
    ]

-- The first part of the compact form reads back as exactly the peers that have an IPv4 address, and
-- the second part as exactly those of the others that have an IPv6 address, each in order, with their
-- addresses and the low 16 bits of their ports.
pub read-peers_to_compact :
    (u : Bool) (ps : List Peer)
    → (read_entries (length ps) 4 (peers_to_compact u ps).0 ≡ reachable u false ps)
      × (read_entries (length ps) 16 (peers_to_compact u ps).1
          ≡ reachable u true (filter (has_no_v4 u) ps))
read-peers_to_compact u ps =
    let others = filter (has_no_v4 u) ps in
    let same = peers_to_compact-peer_entries u ps in
    (
      ap (read_entries (length ps) 4) same.0
          ∙ read_entries-peer_entries (length ps) u false ps (length-reachable-le u false ps),
      ap (read_entries (length ps) 16) same.1
          ∙ read_entries-peer_entries (length ps) u true others
              (omega (arith, length-reachable-le u true others, length-filter-le (has_no_v4 u) ps)),
    )
