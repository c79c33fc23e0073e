-- ===== src/Local/Respond.antt =====
-- The answer of HandleAnnouncePeer (biz/services/peer/local/local.go, from `expireTime` on) as a
-- selection from the list of all peers of the torrent.
use trunker.Base.{
  ℕ, zero, suc, ◌-◌, ◌<◌, ◌≡◌, refl, sym, ap, ◌∙◌, inl, inr, Bool, true, false, not, ◌&&◌, List, [],
  ◌∷◌, ◌++◌, map, arith, leb, if◌then◌else◌, Bool-cases, is_some, length, take, filter,
  length-append, filter_skip, filter_add, length-take,
}
use mathlib.Core.List.{append-nil, append_assoc}
use trunker.Base.Bytes.{Bytes, eq_bytes}
use trunker.Base.Int.{ℤ, pos, negsuc, le_ℕ}
use trunker.Config.{Config}
use trunker.Request.{AnnounceRequest}
use trunker.Mapx.{SyncStringMap}
use trunker.Peer.{Peer, webtorrent, eq_type}
use trunker.Peer.Event.{stopped, eq_event}
use trunker.Local.Root.{InfoHashRoot, visit, range}
use trunker.Local.Manager.{is_expired, pick, respond}

-- A peer that may be given to `peer`.
abbrev pub is_selected : Config → ℕ → Peer → Peer → Bool
is_selected cfg now peer value =
    not (is_expired cfg now value)
    && (eq_type value.type peer.type
        && (not (eq_type value.type webtorrent && not (is_some value.conn))
            && (not (eq_event value.event stopped) && not (eq_bytes value.id peer.id))))

-- The number of peers asked for: a negative number asks for none.
abbrev pub wanted : ℤ → ℕ
wanted (pos n) = n
wanted (negsuc n) = 0

pub le_ℕ-wanted : (i : ℤ) (n : ℕ) → le_ℕ i n ≡ leb (wanted i) n
unfolding le_ℕ
le_ℕ-wanted (pos m) n = refl
le_ℕ-wanted (negsuc m) n = ground arith

abbrev pub values {ℓ} : {V : Type ℓ} → List (Bytes × V) → List V
values = map (λ x. x.1)

abbrev pub peers_in : {P : SyncStringMap Peer} → InfoHashRoot P → List Peer
peers_in {P} r =
    values (P.entries r.peer_map0)
    ++ (values (P.entries r.peer_map1) ++ values (P.entries r.peer_map2))

module _ {ℓ} {A : Type ℓ} where
  pub take_pos : (n : ℕ) (x : A) (xs : List A) → 0 < n → take n (x ∷ xs) ≡ x ∷ take (n - 1) xs
  take_pos zero x xs h = elim h [ ]
  take_pos (suc n) x xs h = ap (λ m. x ∷ take m xs) (omega arith)

  pub take_none : (n : ℕ) (xs : List A) → n ≡ 0 → take n xs ≡ []
  take_none zero xs h = refl
  take_none (suc n) xs h = absurd (omega arith)

  pub take-nil : (n : ℕ) → take {A = A} n [] ≡ []
  take-nil zero = refl
  take-nil (suc n) = refl

  take-append_split :
      (n : ℕ) (xs ys : List A) → take n (xs ++ ys) ≡ take n xs ++ take (n - length xs) ys
  take-append_split n [] ys = rw take-nil (ap (λ m. take m ys) (omega arith))
  take-append_split zero (x ∷ xs) ys = sym (take_none (0 - suc (length xs)) ys (omega arith))
  take-append_split (suc n) (x ∷ xs) ys =
      ap (◌∷◌ x) (take-append_split n xs ys ∙ ap (λ m. take n xs ++ take m ys) (omega arith))

  filter-append : (p : A → Bool) (xs ys : List A) → filter p (xs ++ ys) ≡ filter p xs ++ filter p ys
  filter-append p [] ys = refl
  filter-append p (x ∷ xs) ys = ground (arith, filter-append p xs ys)

module _ (cfg : Config) (now : ℕ) (req : AnnounceRequest) (peer : Peer) where
  abbrev select : List (Bytes × Peer) → List Peer
  select es = filter (is_selected cfg now peer) (values es)

  -- What one call of `pick` does: pass over the peer, stop, or add it to the answer.
  data Picks (k : Bytes) (v : Peer) (keys : List Bytes) (resp : List Peer)
      : (List Bytes × List Peer) × Bool → Type 0 where
    skip :
        (keys' : List Bytes)
        → is_selected cfg now peer v ≡ false
        → Picks k v keys resp ((keys', resp), true)
    stop : wanted req.num_want - length resp ≡ 0 → Picks k v keys resp ((keys, resp), false)
    add :
        is_selected cfg now peer v ≡ true
        → 0 < wanted req.num_want - length resp
        → Picks k v keys resp ((keys, resp ++ (v ∷ [])), true)

  pick-Picks :
      (k : Bytes) (v : Peer) (keys : List Bytes) (resp : List Peer)
      → Picks k v keys resp (pick cfg now req peer k v (keys, resp))
  unfolding pick
  pick-Picks k v keys resp = elim (Bool-cases (is_expired cfg now v)) [
    | inl e ↦ rw e (skip (keys ++ (k ∷ [])) (rw e))
    | inr e ↦ rw e (elim (Bool-cases (eq_type v.type peer.type)) [
      | inr t ↦ rw t (skip keys (rw (e, t)))
      | inl t ↦ rw t (elim (Bool-cases (eq_type v.type webtorrent && not (is_some v.conn))) [
        | inl c ↦ rw c (skip keys (ground (arith, c)))
        | inr c ↦ rw c (elim (Bool-cases (eq_event v.event stopped)) [
          | inl s ↦ rw s (skip keys (ground (arith, s)))
          | inr s ↦ rw s (elim (Bool-cases (le_ℕ req.num_want (length resp))) [
            | inl f ↦ rw f (stop (ground (arith, f, le_ℕ-wanted req.num_want (length resp))))
            | inr f ↦ rw f (elim (Bool-cases (eq_bytes v.id peer.id)) [
              | inl own ↦ rw own (skip keys (ground (arith, own)))
              | inr other ↦ rw other (
                  add (rw (e, t, c, s, other))
                    (ground (arith, f, le_ℕ-wanted req.num_want (length resp))))
            ])
          ])
        ])
      ])
    ])
  ]

  -- The callback once, and then the visit of the rest.
  visit_step :
      (k : Bytes) (v : Peer) (es : List (Bytes × Peer)) (keys : List Bytes) (resp : List Peer)
      (p : (List Bytes × List Peer) × Bool)
      → Picks k v keys resp p
      → ((ks : List Bytes) (rs : List Peer)
          → (visit (pick cfg now req peer) es (ks, rs)).1
            ≡ rs ++ take (wanted req.num_want - length rs) (select es))
      → (if p.1 then visit (pick cfg now req peer) es p.0 else p.0).1
        ≡ resp ++ take (wanted req.num_want - length resp) (select ((k, v) ∷ es))
  visit_step k v es keys resp _ (skip keys' out) ih =
      rw (filter_skip (is_selected cfg now peer) v (values es) out) (ih keys' resp)
  visit_step k v es keys resp _ (stop full) ih =
      rw (take_none (wanted req.num_want - length resp) (select ((k, v) ∷ es)) full)
        (sym (append-nil resp))
  visit_step k v es keys resp _ (add chosen room) ih =
      ih keys (resp ++ (v ∷ []))
      ∙ rw (filter_add (is_selected cfg now peer) v (values es) chosen) (
          append_assoc resp (v ∷ []) _
          ∙ ap (◌++◌ resp) (
              ap (λ n. v ∷ take n (select es)) (omega (arith, length-append resp (v ∷ [])))
              ∙ sym (take_pos (wanted req.num_want - length resp) v (select es) room)))

  visit-pick :
      (es : List (Bytes × Peer)) (keys : List Bytes) (resp : List Peer)
      → (visit (pick cfg now req peer) es (keys, resp)).1
        ≡ resp ++ take (wanted req.num_want - length resp) (select es)
  unfolding visit
  visit-pick [] keys resp =
      rw (take-nil (wanted req.num_want - length resp)) (sym (append-nil resp))
  visit-pick ((k, v) ∷ es) keys resp =
      visit_step k v es keys resp _ (pick-Picks k v keys resp) (visit-pick es)

  -- One more map: the answer so far is `take` of what was selected before.
  visit-more :
      (es : List (Bytes × Peer)) (keys : List Bytes) (seen resp : List Peer)
      → resp ≡ take (wanted req.num_want) seen
      → (visit (pick cfg now req peer) es (keys, resp)).1
        ≡ take (wanted req.num_want) (seen ++ select es)
  visit-more es keys seen resp e =
      visit-pick es keys resp
      ∙ rw (e, take-append_split (wanted req.num_want) seen (select es))
          (ap (λ n. take (wanted req.num_want) seen ++ take n (select es))
            (omega (arith, length-take (wanted req.num_want) seen)))

-- The answer holds exactly the first peers, as many as asked for, of those that may be given, in the
-- order in which the three maps are visited: every one that may be given if there are no more than
-- that.
pub respond-take :
    {P : SyncStringMap Peer} (cfg : Config) (now : ℕ) (req : AnnounceRequest) (peer : Peer)
    (r : InfoHashRoot P)
    → (respond cfg now req peer r).1
      ≡ take (wanted req.num_want) (filter (is_selected cfg now peer) (peers_in r))
unfolding respond range
respond-take {P} cfg now req peer r =
    let f = is_selected cfg now peer in
    let s = select cfg now req peer in
    let s0 = P.entries r.peer_map0 in
    let s1 = P.entries r.peer_map1 in
    let s2 = P.entries r.peer_map2 in
    let after0 = visit-more cfg now req peer s0 [] [] [] (sym (take-nil (wanted req.num_want))) in
    let after1 = visit-more cfg now req peer s1 _ (s s0) _ after0 in
    let after2 = visit-more cfg now req peer s2 _ (s s0 ++ s s1) _ after1 in
    after2
    ∙ ap (take (wanted req.num_want)) (
        append_assoc (s s0) (s s1) (s s2)
        ∙ ap (◌++◌ (s s0)) (sym (filter-append f (values s1) (values s2)))
        ∙ sym (filter-append f (values s0) (values s1 ++ values s2)))
