-- ===== src/Database/Picked.antt =====
-- Whom HandleAnnouncePeer of biz/services/peer/database/db_manager.go answers with.
use trunker.Base.{
  ℕ, suc, ◌+◌, ◌*◌, ◌≤◌, ◌≡◌, refl, ap, inl, inr, Bool, true, not, ◌&&◌, ◌||◌, List, [], ◌∷◌, map,
  arith, ltb, Bool-cases, length, All,
}
use trunker.Base.Int.{ℤ, pos}
use trunker.Config.{Config, second}
use trunker.Request.{AnnounceRequest}
use trunker.Peer.{Peer, eq_type}
use trunker.Peer.Event.{stopped, eq_event}
use trunker.Tracker.{Outcome, done, failed}
use trunker.Local.Manager.{is_invalid_address}
use trunker.Ban.Hex.{hex_encode}
use trunker.Ban.Item.{Bloom}
use trunker.Database.{Gorm, Peers, is_picked, is_valid, db_to_common}
use trunker.Database.Manager.{DbManager, peer_of, to_peers, handle_announce_peer}

-- What a call answers with, if it does not fail, is in `P`.
abbrev pub Answers : {A : Type 0} → (A → Type 0) → Outcome A → Type 0
Answers P (done a) = P a
Answers P (failed e) = Unit {0}

-- The rows of Find pass the test of Where, and a Limit that is not negative bounds their number.
pub record IsFind (G : Gorm) : Type 0 where
  pub find-limit :
      (seed : ℕ) (n : ℤ) (p : Peers → Bool) (db : G.Db)
      → Answers
          (λ rows. All (λ r. p r ≡ true) rows × ((m : ℕ) → n ≡ pos m → length rows ≤ m))
          (G.find_peers_at_random seed n p db)

-- A peer of the type asked for, that has not stopped and was seen within the time to live.
abbrev pub is_given : Config → ℕ → AnnounceRequest → Peer → Bool
is_given cfg now req p =
    ltb now (p.last_seen + cfg.ttl * second)
    && (not (eq_event p.event stopped) && eq_type p.type req.type)

module _ (cfg : Config) (now : ℕ) (req : AnnounceRequest) where
  given_row :
      (r : Peers)
      → is_picked cfg now (hex_encode req.peer_id) req.info_hash req.type r ≡ true
      → is_given cfg now req (db_to_common r) ≡ true
  unfolding is_picked is_valid db_to_common
  given_row r h = ground (arith, h)

  given_rows :
      (rows : List Peers)
      → All (λ r. is_picked cfg now (hex_encode req.peer_id) req.info_hash req.type r ≡ true) rows
      → All (λ p. is_given cfg now req p ≡ true) (map db_to_common rows)
  given_rows [] h = tt
  given_rows (r ∷ rows) (h, hs) = (given_row r h, given_rows rows hs)

abbrev IsAnswer : Config → ℕ → AnnounceRequest → List Peer → Type 0
IsAnswer cfg now req ps =
    All (λ p. is_given cfg now req p ≡ true) ps × ((m : ℕ) → req.num_want ≡ pos m → length ps ≤ m)

length-map : {A B : Type 0} (f : A → B) (xs : List A) → length (map f xs) ≡ length xs
length-map f [] = refl
length-map f (x ∷ xs) = ap suc (length-map f xs)

to_peers-Answers :
    (cfg : Config) (now : ℕ) (req : AnnounceRequest) (o : Outcome (List Peers))
    → Answers
        (λ rows.
          All (λ r. is_picked cfg now (hex_encode req.peer_id) req.info_hash req.type r ≡ true) rows
          × ((m : ℕ) → req.num_want ≡ pos m → length rows ≤ m))
        o
    → Answers (IsAnswer cfg now req) (to_peers o)
unfolding to_peers
to_peers-Answers cfg now req (done rows) (h, l) =
    (given_rows cfg now req rows h, λ m e. rw (length-map db_to_common rows) (l m e))
to_peers-Answers cfg now req (failed e) h = tt

module _ {G : Gorm} {B : Bloom} (law : IsFind G) where
  -- Whatever peers an announce is answered with, each is of the type that was asked for, has not
  -- stopped and was seen within the time to live, and there are at most as many as were asked for, if
  -- that number is not negative.
  pub handle_announce_peer-Answers :
      (cfg : Config) (now seed : ℕ) (req : AnnounceRequest) (m : DbManager G B)
      → Answers
          (λ ps.
            All (λ p. is_given cfg now req p ≡ true) ps
            × ((n : ℕ) → req.num_want ≡ pos n → length ps ≤ n))
          (handle_announce_peer cfg now seed req m).1
  unfolding handle_announce_peer peer_of
  handle_announce_peer-Answers cfg now seed req m =
      elim (Bool-cases (B.test req.info_hash m.ban_info_hash || B.test req.peer_id m.ban_peer_id)) [
        | inl e ↦ rw e tt
        | inr e ↦ elim (Bool-cases (is_invalid_address (peer_of now req))) [
          | inl i ↦ rw (e, i) tt
          | inr i ↦
              rw (e, i)
                (to_peers-Answers cfg now req
                  (G.find_peers_at_random seed req.num_want
                    (is_picked cfg now (hex_encode req.peer_id) req.info_hash req.type) m.db)
                  (law.find-limit _ _ _ _))
        ]
      ]
