-- ===== src/Webtorrent/Offers.antt =====
-- Who is sent an offer of an announce.
use trunker.Base.{
  ℕ, ◌<◌, ◌≡◌, refl, ap, inl, inr, Bool, not, List, [], ◌∷◌, map, arith, ◌==◌, Bool-cases, length,
  filter,
}
use trunker.Base.Bytes.{Bytes, eq_bytes}
use trunker.Peer.{Peer, Offer}
use trunker.Webtorrent.{offers_in_order, offers_at_random, offers_for}

abbrev pub is_other : Bytes → Peer → Bool
is_other own p = not (eq_bytes p.id own)

in_order-peers :
    (own : Bytes) (os : List Offer) (res : List Peer)
    → length os ≡ length res
    → map (λ x. x.0) (offers_in_order own os res) ≡ filter (is_other own) res
unfolding offers_in_order
in_order-peers own [] [] h = refl
in_order-peers own [] (p ∷ res) h = ground arith
in_order-peers own (o ∷ os) [] h = ground arith
in_order-peers own (o ∷ os) (p ∷ res) h =
    let ih = in_order-peers own os res (omega arith) in
    elim (Bool-cases (eq_bytes p.id own)) [
      | inl e ↦ rw (e, offers_in_order, filter) ih
      | inr e ↦ rw (e, offers_in_order, filter) (ap (◌∷◌ p) ih)
    ]

at_random-peers :
    (random : ℕ → ℕ) (own : Bytes) (o : Offer) (os : List Offer) (res : List Peer)
    → map (λ x. x.0) (offers_at_random random own o os res) ≡ filter (is_other own) res
unfolding offers_at_random
at_random-peers random own o os [] = refl
at_random-peers random own o os (p ∷ res) =
    let ih = at_random-peers random own o os res in
    elim (Bool-cases (eq_bytes p.id own)) [
      | inl e ↦ rw (e, offers_at_random, filter) ih
      | inr e ↦ rw (e, offers_at_random, filter) (ap (◌∷◌ p) ih)
    ]

-- When a request has offers, the peers that are sent one are those of the answer but for the sender
-- itself, each once and in the order of the answer, whatever numbers are drawn and however many the
-- offers are.
pub offers_for-peers :
    (random : ℕ → ℕ) (own : Bytes) (offers : List Offer) (res : List Peer)
    → 0 < length offers
    → map (λ x. x.0) (offers_for random own offers res) ≡ filter (is_other own) res
unfolding offers_for
offers_for-peers random own [] res h = ground arith
offers_for-peers random own (o ∷ os) res h = elim (Bool-cases (length (o ∷ os) == length res)) [
  | inl e ↦ rw (e, offers_for) (in_order-peers own (o ∷ os) res (ground arith))
  | inr e ↦ rw (e, offers_for) (at_random-peers random own o os res)
]
