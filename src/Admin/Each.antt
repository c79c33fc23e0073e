-- ===== src/Admin/Each.antt =====
-- The four lists that an administrator sends: what is done of them when one of them fails.
use trunker.Base.{◌≡◌, refl, ap, ◌∙◌, Option, some, List, [], ◌∷◌, ◌++◌, arith}
use trunker.Base.Bytes.{Bytes}
use trunker.Tracker.{Outcome, done, failed, AdminManager, Action, and_then, ◌>>=◌, return}
use trunker.Admin.{
  Response, nothing, respond, response_err, ban_info_hashes, ban_peers, ban_ips, unban_ips,
  handle_ban_info_hash, handle_ban_peer, handle_ban_ip, handle_unban_ip,
}

-- A call for each element, in order, up to the first that fails.
unfoldable pub each :
    {S : Type 0} → (Bytes → Action S (Unit {0})) → List Bytes → Action S (Unit {0})
each call [] = return tt
each call (x ∷ xs) = do u ← call x; each call xs

failed≢done :
    {S : Type 0} (s s' : S) (e : Bytes)
    → ◌≡◌ {A = S × Outcome (Unit {0})} (s, failed e) (s', done tt)
    → ⊥
failed≢done s s' e h = ground (arith, ap (λ r. r.1) h)

-- A call that is done is followed by the others.
then-append :
    {S : Type 0} (call : Bytes → Action S (Unit {0})) (xs ys : List Bytes) (s' : S)
    (r : S × Outcome (Unit {0}))
    → ((t : S) → each call xs t ≡ (s', done tt) → each call (xs ++ ys) t ≡ each call ys s')
    → and_then (λ u. each call xs) r ≡ (s', done tt)
    → and_then (λ u. each call (xs ++ ys)) r ≡ each call ys s'
then-append call xs ys s' (t, done u) ih h = ih t h
then-append call xs ys s' (t, failed e) ih h = absurd (failed≢done t s' e h)

each-append :
    {S : Type 0} (call : Bytes → Action S (Unit {0})) (xs ys : List Bytes) (s s' : S)
    → each call xs s ≡ (s', done tt)
    → each call (xs ++ ys) s ≡ each call ys s'
unfolding each
each-append call [] ys s s' h = ap (λ r. each call ys r.0) h
each-append call (x ∷ xs) ys s s' h =
    then-append call xs ys s' (call x s) (λ t. each-append call xs ys t s') h

-- The four kinds of lists.
pub data Listed : Type 0 where
  banned_info_hashes banned_peers banned_ips unbanned_ips : Listed

module _ (m : AdminManager) (latin1 : Bytes → Bytes) where
  -- What the manager is called for.
  abbrev pub call_of : Listed → Bytes → Action m.State (Unit {0})
  call_of banned_info_hashes x = m.ban_info_hash (latin1 x)
  call_of banned_peers x = m.ban_peer (latin1 x)
  call_of banned_ips x = m.ban_ip x
  call_of unbanned_ips x = m.unban_ip x

  abbrev pub handler_of : Listed → Option (List Bytes) → m.State → m.State × Response
  handler_of banned_info_hashes = handle_ban_info_hash m latin1
  handler_of banned_peers = handle_ban_peer m latin1
  handler_of banned_ips = handle_ban_ip m
  handler_of unbanned_ips = handle_unban_ip m

  abbrev loop_of : Listed → List Bytes → Action m.State (Unit {0})
  loop_of banned_info_hashes = ban_info_hashes m latin1
  loop_of banned_peers = ban_peers m latin1
  loop_of banned_ips = ban_ips m
  loop_of unbanned_ips = unban_ips m

  loop_of-each : (l : Listed) (xs : List Bytes) → loop_of l xs ≡ each (call_of l) xs
  unfolding each ban_info_hashes ban_peers ban_ips unban_ips
  loop_of-each banned_info_hashes [] = refl
  loop_of-each banned_peers [] = refl
  loop_of-each banned_ips [] = refl
  loop_of-each unbanned_ips [] = refl
  loop_of-each banned_info_hashes (x ∷ xs) =
      ap (λ k. call_of banned_info_hashes x >>= (λ u. k)) (loop_of-each banned_info_hashes xs)
  loop_of-each banned_peers (x ∷ xs) =
      ap (λ k. call_of banned_peers x >>= (λ u. k)) (loop_of-each banned_peers xs)
  loop_of-each banned_ips (x ∷ xs) =
      ap (λ k. call_of banned_ips x >>= (λ u. k)) (loop_of-each banned_ips xs)
  loop_of-each unbanned_ips (x ∷ xs) =
      ap (λ k. call_of unbanned_ips x >>= (λ u. k)) (loop_of-each unbanned_ips xs)

  refused :
      (l : Listed) (x : Bytes) (xs : List Bytes) (s s'' : m.State) (e : Bytes)
      → loop_of l (x ∷ xs) s ≡ (s'', failed e)
      → handler_of l (some (x ∷ xs)) s
        ≡ (s'', record { code = 500; message = e; payload = nothing })
  unfolding handle_ban_info_hash handle_ban_peer handle_ban_ip handle_unban_ip respond response_err
  refused banned_info_hashes x xs s s'' e h = ap (respond _) h
  refused banned_peers x xs s s'' e h = ap (respond _) h
  refused banned_ips x xs s s'' e h = ap (respond _) h
  refused unbanned_ips x xs s s'' e h = ap (respond _) h

  refused-append :
      (l : Listed) (xs ys : List Bytes) (x : Bytes) (s s'' : m.State) (e : Bytes)
      → loop_of l (xs ++ (x ∷ ys)) s ≡ (s'', failed e)
      → handler_of l (some (xs ++ (x ∷ ys))) s
        ≡ (s'', record { code = 500; message = e; payload = nothing })
  refused-append l [] ys x s s'' e h = refused l x ys s s'' e h
  refused-append l (z ∷ xs) ys x s s'' e h = refused l z (xs ++ (x ∷ ys)) s s'' e h

  -- A list of torrents, peer ids or addresses to ban, or of addresses to unban, stops at the first
  -- that the manager refuses, say x: those in front of it are done, the answer is 500 with the error
  -- of x, and those behind it are not tried. Torrents and peer ids are given to the manager in the
  -- tracker's character set.
  pub handle_lists_fail :
      (l : Listed) (xs ys : List Bytes) (x : Bytes) (s s' s'' : m.State) (e : Bytes)
      → each (call_of l) xs s ≡ (s', done tt)
      → call_of l x s' ≡ (s'', failed e)
      → handler_of l (some (xs ++ (x ∷ ys))) s
        ≡ (s'', record { code = 500; message = e; payload = nothing })
  unfolding each
  handle_lists_fail l xs ys x s s' s'' e h k = refused-append l xs ys x s s'' e (
      ap (λ f. f s) (loop_of-each l (xs ++ (x ∷ ys)))
      ∙ (each-append (call_of l) xs (x ∷ ys) s s' h ∙ ap (and_then (λ u. each (call_of l) ys)) k))
