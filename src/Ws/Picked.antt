-- ===== src/Ws/Picked.antt =====
-- The answer of a websocket announce as a selection from the peers of the torrent.
use trunker.Base.{
  ℕ, ◌-◌, ◌<◌, ◌≡◌, refl, sym, ap, ◌∙◌, inl, inr, Bool, true, false, not, ◌&&◌, some, List, [], ◌∷◌,
  ◌++◌, arith, if◌then◌else◌, Bool-cases, is_some, length, take, filter, length-append, filter_skip,
  filter_add,
}
use mathlib.Core.List.{append-nil, append_assoc}
use trunker.Base.Bytes.{Bytes, eq_bytes}
use trunker.Base.Int.{le_ℕ}
use trunker.Request.{AnnounceRequest}
use trunker.Mapx.{SyncStringMap, IsMap}
use trunker.Peer.{Peer, webtorrent, eq_type}
use trunker.Peer.Event.{stopped, eq_event}
use trunker.Local.Root.{visit}
use trunker.Local.Manager.{is_invalid_address}
use trunker.Local.Respond.{wanted, values, le_ℕ-wanted, take_pos, take_none, take-nil}
use trunker.Tracker.{done}
use trunker.Ws.{Root, Manager, peer_of, pick}
use trunker.Ws.Handlers.{handle_announce_peer}

-- A peer that may be given to `peer`.
abbrev pub is_reachable : Peer → Peer → Bool
is_reachable peer value =
    eq_type value.type peer.type
    && (not (eq_type value.type webtorrent && not (is_some value.conn))
        && (not (eq_event value.event stopped) && not (eq_bytes value.id peer.id)))

module _ (req : AnnounceRequest) (peer : Peer) where
  abbrev select : List (Bytes × Peer) → List Peer
  select es = filter (is_reachable peer) (values es)

  -- One call of `pick`: pass over the peer, stop, or add it to the answer.
  data Picks (v : Peer) (resp : List Peer) : List Peer × Bool → Type 0 where
    skip : is_reachable peer v ≡ false → Picks v resp (resp, true)
    stop : wanted req.num_want - length resp ≡ 0 → Picks v resp (resp, false)
    add :
        is_reachable peer v ≡ true
        → 0 < wanted req.num_want - length resp
        → Picks v resp (resp ++ (v ∷ []), true)

  pick-Picks : (k : Bytes) (v : Peer) (resp : List Peer) → Picks v resp (pick req peer k v resp)
  unfolding pick
  pick-Picks k v resp = elim (Bool-cases (eq_type v.type peer.type)) [
    | inr t ↦ rw t (skip (rw t))
    | inl t ↦ rw t (elim (Bool-cases (eq_type v.type webtorrent && not (is_some v.conn))) [
      | inl c ↦ rw c (skip (ground (arith, c)))
      | inr c ↦ rw c (elim (Bool-cases (eq_event v.event stopped)) [
        | inl s ↦ rw s (skip (ground (arith, s)))
        | inr s ↦ rw s (elim (Bool-cases (le_ℕ req.num_want (length resp))) [
          | inl f ↦ rw f (stop (ground (arith, f, le_ℕ-wanted req.num_want (length resp))))
          | inr f ↦ rw f (elim (Bool-cases (eq_bytes v.id peer.id)) [
            | inl own ↦ rw own (skip (ground (arith, own)))
            | inr other ↦ rw other (
                add (rw (t, c, s, other))
                  (ground (arith, f, le_ℕ-wanted req.num_want (length resp))))
          ])
        ])
      ])
    ])
  ]

  visit_step :
      (k : Bytes) (v : Peer) (es : List (Bytes × Peer)) (resp : List Peer) (p : List Peer × Bool)
      → Picks v resp p
      → ((rs : List Peer)
          → visit (pick req peer) es rs ≡ rs ++ take (wanted req.num_want - length rs) (select es))
      → (if p.1 then visit (pick req peer) es p.0 else p.0)
        ≡ resp ++ take (wanted req.num_want - length resp) (select ((k, v) ∷ es))
  visit_step k v es resp _ (skip out) ih =
      rw (filter_skip (is_reachable peer) v (values es) out) (ih resp)
  visit_step k v es resp _ (stop full) ih =
      rw (take_none (wanted req.num_want - length resp) (select ((k, v) ∷ es)) full)
        (sym (append-nil resp))
  visit_step k v es resp _ (add chosen room) ih =
      ih (resp ++ (v ∷ []))
      ∙ rw (filter_add (is_reachable peer) v (values es) chosen) (
          append_assoc resp (v ∷ []) _
          ∙ ap (◌++◌ resp) (
              ap (λ n. v ∷ take n (select es)) (omega (arith, length-append resp (v ∷ [])))
              ∙ sym (take_pos (wanted req.num_want - length resp) v (select es) room)))

  visit-pick :
      (es : List (Bytes × Peer)) (resp : List Peer)
      → visit (pick req peer) es resp ≡ resp ++ take (wanted req.num_want - length resp) (select es)
  unfolding visit
  visit-pick [] resp = rw (take-nil (wanted req.num_want - length resp)) (sym (append-nil resp))
  visit-pick ((k, v) ∷ es) resp = visit_step k v es resp _ (pick-Picks k v resp) (visit-pick es)

module _ {P : SyncStringMap Peer} {R : SyncStringMap (Root P)} (lr : IsMap (Root P) R) where
  answered :
      (c now : ℕ) (req : AnnounceRequest) (m : Manager P R)
      → req.conn ≡ some c
      → is_invalid_address (peer_of now req) ≡ false
      → (let found =
            R.load_or_store_lazy req.info_hash
              (λ _. record { info_hash = req.info_hash; peer_map = P.new })
              m.info_hash_map in
          found.2 ≡ true
          → eq_event (peer_of now req).event stopped ≡ false
          → (handle_announce_peer now req m).result
            ≡ done (visit (pick req (peer_of now req)) (P.entries found.1.peer_map) []))
  unfolding handle_announce_peer peer_of
  answered c now req m e valid there runs =
      rw (valid, e, there, runs, handle_announce_peer) (rw (e, peer_of) refl)

  -- An announce to a known torrent is answered with the peers of the torrent that have its type, a
  -- connection if they are websocket peers, an event that is not stopped, and another id; in the
  -- order of the map, and as many as were asked for; when its addresses are valid, its event is not
  -- stopped, and the map of torrents keeps its contract.
  pub handle_announce_peer-take :
      (c now : ℕ) (req : AnnounceRequest) (m : Manager P R) (root : Root P)
      → req.conn ≡ some c
      → R.load req.info_hash m.info_hash_map ≡ some root
      → is_invalid_address (peer_of now req) ≡ false
      → eq_event (peer_of now req).event stopped ≡ false
      → (handle_announce_peer now req m).result
        ≡ done (
            take
              (wanted req.num_want)
              (filter (is_reachable (peer_of now req)) (values (P.entries root.peer_map))))
  unfolding handle_announce_peer
  handle_announce_peer-take c now req m root e known valid runs =
      let f : Unit {0} → Root P = λ _. record { info_hash = req.info_hash; peer_map = P.new } in
      let (actual, loaded) = lr.load_or_store_lazy_actual req.info_hash f m.info_hash_map in
      let same : (R.load_or_store_lazy req.info_hash f m.info_hash_map).1 ≡ root =
        actual ∙ rw known refl in
      let there : (R.load_or_store_lazy req.info_hash f m.info_hash_map).2 ≡ true =
        loaded ∙ rw known refl in
      answered c now req m e valid there runs
      ∙ (ap (λ (r : Root P). done (visit (pick req (peer_of now req)) (P.entries r.peer_map) []))
            same
          ∙ ap done (
              visit-pick req (peer_of now req) (P.entries root.peer_map) []
              ∙ ap
                  (λ n.
                    take n
                      (filter (is_reachable (peer_of now req)) (values (P.entries root.peer_map))))
                  (omega arith)))
