-- ===== src/Ban/Kept.antt =====
-- What a list of bans (biz/services/peer/mux_local/ban/item.go) holds after any calls of it.
use trunker.Base.{
  ℕ, ◌+◌, ◌%◌, ◌^◌, ◌≡◌, refl, sym, ap, ◌∙◌, inl, inr, Bool, true, false, ◌&&◌, ◌||◌, Option, none,
  some, List, [], ◌∷◌, ◌++◌, arith, leb, if◌then◌else◌, Bool-cases, Option-cases, is_some, length,
  take, All, count, All-append,
}
use trunker.Base.Bytes.{Bytes, IsByte, eq_bytes, eq_bytes_iff, eq_bytes_refl}
use mathlib.Core.List.{append-nil}
use mathlib.Core.Path.{subst}
use trunker.Ban.Hex.{hex_encode, hex_decode, hex_decode-hex_encode}
use trunker.Ban.Item.{
  Bloom, IsBloom, BanFile, BanItem, Io, scanned, read_ban, add_keys, new_ban_item, test, clear, add,
}

-- A key of 20 bytes.
abbrev pub IsTarget : Bytes → Type 0
IsTarget k = (length k ≡ 20) × All IsByte k

-- Every line of the file is hexadecimal.
abbrev pub IsReadable : List Bytes → Type 0
IsReadable = All (λ raw. is_some (hex_decode raw) ≡ true)

unfoldable pub has : Bytes → List Bytes → Bool
has k [] = false
has k (j ∷ js) = eq_bytes j k || has k js

scanned_ended : (f : BanFile) → f.partial ≡ [] → scanned f ≡ f.lines
unfolding scanned
scanned_ended f e = rw e refl

has-append : (k : Bytes) (xs ys : List Bytes) → has k (xs ++ ys) ≡ (has k xs || has k ys)
unfolding has
has-append k [] ys = refl
has-append k (x ∷ xs) ys = ground (arith, has-append k xs ys)

has_self : (k : Bytes) → has k (k ∷ []) ≡ true
unfolding has
has_self k = ground (arith, eq_bytes_refl k)

read_ban-append :
    (xs : List Bytes) (k : Bytes)
    → IsReadable xs
    → IsTarget k
    → read_ban (xs ++ (hex_encode k ∷ [])) ≡ read_ban xs ++ (k ∷ [])
unfolding read_ban
read_ban-append [] k r (l, b) = ground (arith, l, hex_decode-hex_encode k b)
read_ban-append (x ∷ xs) k (h, r) t = ground (arith, h, read_ban-append xs k r t)

module _ {B : Bloom} (law : IsBloom B) where
  test-add_keys_keep :
      (j : Bytes) (ks : List Bytes) (f : B.Filter)
      → B.test j f ≡ true
      → B.test j (add_keys B ks f) ≡ true
  unfolding add_keys
  test-add_keys_keep j [] f h = h
  test-add_keys_keep j (k ∷ ks) f h =
      test-add_keys_keep j ks (B.add k f) (law.test-add_other j k f h)

  pub test-add_keys :
      (j : Bytes) (ks : List Bytes) (f : B.Filter)
      → has j ks ≡ true
      → B.test j (add_keys B ks f) ≡ true
  unfolding add_keys has
  test-add_keys j [] f h = ground (arith, h)
  test-add_keys j (k ∷ ks) f h = elim (Bool-cases (eq_bytes k j)) [
    | inl e ↦ test-add_keys_keep j ks (B.add k f) (same ((eq_bytes_iff k j).0 e))
    | inr e ↦ test-add_keys j ks (B.add k f) (rw e at h)
  ]
    where
      same : k ≡ j → B.test j (B.add k f) ≡ true
      same e = rw e (law.test-add j f)

  -- A ban that is in force, and is in the file.
  pub record Kept (i : BanItem B) (k : Bytes) : Type 0 where
    pub tested : test k i ≡ true
    pub stored : has k (read_ban (scanned i.store)) ≡ true

  -- The filter after a call has the target, and the keys that the list had.
  record Extends (k : Bytes) (i : BanItem B) (f : B.Filter) : Type 0 where
    new_key : B.test k f ≡ true
    old_keys : (j : Bytes) → Kept i j → B.test j f ≡ true

  extended :
      (io : Io) (k : Bytes) (i : BanItem B) (cap : ℕ) (grow : Bool)
      → Extends k i (
          if grow
          then B.add k (add_keys B (read_ban (scanned i.store)) (B.new cap))
          else B.add k i.filter)
  extended io k i cap true = record {
    new_key = law.test-add k _;
    old_keys =
        λ j h. law.test-add_other j k _ (test-add_keys j (read_ban (scanned i.store)) _ h.stored);
  }
  extended io k i cap false = record {
    new_key = law.test-add k _;
    old_keys = λ j h. law.test-add_other j k _ (unfold test in h.tested);
  }

  -- The three ends of `add`: reading failed, writing failed, and the line was written.
  add_cases :
      (io : Io) (k : Bytes) (i : BanItem B) (Q : BanItem B × Option Bytes → Type 0)
      → ((cap : ℕ) (e : Bytes) → Q (record i { cap = cap }, some e))
      → ((f : B.Filter) (cap count : ℕ) (e : Bytes)
          → Extends k i f
          → Q (
            record {
              filter = f;
              cap = cap;
              count = count;
              store = record i.store {
                partial = i.store.partial ++ take io.written (hex_encode k);
              };
            },
            some e,
          ))
      → ((f : B.Filter) (cap count : ℕ)
          → Extends k i f
          → Q (
            record {
              filter = f;
              cap = cap;
              count = count;
              store = record {
                lines = i.store.lines ++ ((i.store.partial ++ hex_encode k) ∷ []);
                partial = [];
              };
            },
            io.sync_error,
          ))
      → Q (add io k i)
  unfolding add
  add_cases io k i Q unread unwritten written =
      let grow = leb i.cap ((i.count + 1) % 2 ^ 64) in
      elim (Bool-cases (grow && is_some io.read_error)) [
        | inl failed ↦ elim (Option-cases io.read_error) [
          | inl r ↦ absurd (none_failed grow (rw r at failed))
          | inr (e, r) ↦ rw (failed, r) (unread _ e)
        ]
        | inr fine ↦ elim (Option-cases io.write_error) [
          | inl w ↦ rw (fine, w) (written _ _ _ (extended io k i _ grow))
          | inr (e, w) ↦ rw (fine, w) (unwritten _ _ _ e (extended io k i _ grow))
        ]
      ]
    where
      none_failed : (b : Bool) → (b && false) ≡ true → ⊥
      none_failed true e = ground (arith, e)
      none_failed false e = ground (arith, e)

  -- The file is readable and ends with a newline, and every ban that was reported as made is in force and in the file.
  pub record Holds (i : BanItem B) (bans : List Bytes) : Type 0 where
    pub readable : IsReadable i.store.lines
    pub ended : i.store.partial ≡ []
    pub kept : All (Kept i) bans

  abbrev pub reported : Bytes → Option Bytes → List Bytes → List Bytes
  reported k none bans = k ∷ bans
  reported k (some e) bans = bans

  All-map :
      {P Q : Bytes → Type 0} (xs : List Bytes) → ((x : Bytes) → P x → Q x) → All P xs → All Q xs
  All-map [] f a = tt
  All-map (x ∷ xs) f (p, a) = (f x p, All-map xs f a)

  add-Holds :
      (io : Io) (k : Bytes) (i : BanItem B) (bans : List Bytes)
      → IsTarget k
      → io.written ≡ 0
      → Holds i bans
      → Holds (add io k i).0 (reported k (add io k i).1 bans)
  unfolding test
  add-Holds io k i bans t w h =
      add_cases io k i (λ o. Holds o.0 (reported k o.1 bans))
        (λ cap e. record {
          readable = h.readable;
          ended = h.ended;
          kept = All-map bans (λ j x. record { tested = x.tested; stored = x.stored }) h.kept;
        })
        (λ f cap count e x.
          subst (λ st. Holds (record { filter = f; cap = cap; count = count; store = st }) bans)
            (sym nothing_written)
            (record {
              readable = h.readable;
              ended = h.ended;
              kept =
                  All-map bans (λ j y. record { tested = x.old_keys j y; stored = y.stored })
                    h.kept;
            }))
        (λ f cap count x.
          subst
            (λ line.
              Holds
                (record {
                  filter = f;
                  cap = cap;
                  count = count;
                  store = record { lines = i.store.lines ++ (line ∷ []); partial = [] };
                })
                (reported k io.sync_error bans))
            (sym (ap (λ q. q ++ hex_encode k) h.ended)) (written f cap count x io.sync_error))
    where
      nothing_written :
          record i.store { partial = i.store.partial ++ take io.written (hex_encode k) } ≡ i.store
      nothing_written =
          ap (λ q. record i.store { partial = q })
            (ap (λ n. i.store.partial ++ take n (hex_encode k)) w ∙ append-nil i.store.partial)

      all_lines : scanned i.store ≡ i.store.lines
      all_lines = scanned_ended i.store h.ended

      after : B.Filter → ℕ → ℕ → BanItem B
      after f cap count = record {
        filter = f;
        cap = cap;
        count = count;
        store = record { lines = i.store.lines ++ (hex_encode k ∷ []); partial = [] };
      }

      in_file :
          (f : B.Filter) (cap count : ℕ) (j : Bytes)
          → (has j (read_ban i.store.lines) || has j (k ∷ [])) ≡ true
          → has j (read_ban (scanned (after f cap count).store)) ≡ true
      in_file f cap count j e =
          ap (has j) (
            ap read_ban (scanned_ended (after f cap count).store refl)
            ∙ read_ban-append i.store.lines k h.readable t)
          ∙ (has-append j (read_ban i.store.lines) (k ∷ []) ∙ e)

      still :
          (f : B.Filter) (cap count : ℕ)
          → Extends k i f
          → (j : Bytes) → Kept i j
          → Kept (after f cap count) j
      still f cap count x j y = record {
        tested = x.old_keys j y;
        stored =
            in_file f cap count j
              (rw (sym (ap (λ ls. has j (read_ban ls)) all_lines) ∙ y.stored) refl);
      }

      line : is_some (hex_decode (hex_encode k)) ≡ true
      line = ap is_some (hex_decode-hex_encode k t.1)

      readable : IsReadable (i.store.lines ++ (hex_encode k ∷ []))
      readable =
          All-append (λ raw. is_some (hex_decode raw) ≡ true) i.store.lines (hex_encode k ∷ [])
            h.readable (line, tt)

      written :
          (f : B.Filter) (cap count : ℕ)
          → Extends k i f
          → (o : Option Bytes) → Holds (after f cap count) (reported k o bans)
      written f cap count x none = record {
        readable = readable;
        ended = refl;
        kept = (
          record {
            tested = x.new_key;
            stored = in_file f cap count k (ground (arith, has_self k));
          },
          All-map bans (still f cap count x) h.kept,
        );
      }
      written f cap count x (some e) = record {
        readable = readable;
        ended = refl;
        kept = All-map bans (still f cap count x) h.kept;
      }

  -- A list of bans, with the bans reported as made since it was loaded or cleared.
  pub data History : BanItem B → List Bytes → Type 0 where
    loaded :
        (store : BanFile)
        → IsReadable store.lines
        → store.partial ≡ []
        → History (new_ban_item store) (read_ban (scanned store))
    added :
        {i : BanItem B} {bans : List Bytes} (io : Io) (k : Bytes)
        → IsTarget k
        → io.written ≡ 0
        → History i bans
        → History (add io k i).0 (reported k (add io k i).1 bans)
    cleared : {i : BanItem B} {bans : List Bytes} → History i bans → History (clear i) []

  loaded-Kept :
      (store : BanFile) (ks : List Bytes)
      → ((k : Bytes) → has k ks ≡ true → has k (read_ban (scanned store)) ≡ true)
      → All (Kept (new_ban_item store)) ks
  unfolding has new_ban_item test
  loaded-Kept store [] f = tt
  loaded-Kept store (k ∷ ks) f =
      let own : has k (read_ban (scanned store)) ≡ true = f k (ground (arith, eq_bytes_refl k)) in
      (
        record { tested = test-add_keys k (read_ban (scanned store)) _ own; stored = own },
        loaded-Kept store ks (λ j h. f j (ground (arith, h))),
      )

  History-Holds : {i : BanItem B} {bans : List Bytes} → History i bans → Holds i bans
  unfolding new_ban_item clear
  History-Holds (loaded store r e) = record {
    readable = r;
    ended = e;
    kept = loaded-Kept store (read_ban (scanned store)) (λ k h. h);
  }
  History-Holds (added io k t w past) = add-Holds io k _ _ t w (History-Holds past)
  History-Holds (cleared past) = record { readable = tt; ended = refl; kept = tt }

  -- A ban that was in the file at the start or was reported as made is in force until the list is
  -- cleared, whatever other bans are made, grow the filter or fail; and it is in force again after a
  -- restart, when the list is loaded from the file. The file was readable and ended with a newline at
  -- the start, every key that is banned has 20 bytes, and a write that fails has written nothing: a
  -- key of another length, or one behind a line that was written in part, is lost at a restart.
  pub History-test :
      (i : BanItem B) (bans : List Bytes)
      → History i bans
      → All (λ k. (test k i ≡ true) × (test k (new_ban_item {B = B} i.store) ≡ true)) bans
  unfolding test new_ban_item
  History-test i bans past =
      All-map bans (λ k h. (h.tested, test-add_keys k (read_ban (scanned i.store)) _ h.stored))
        (History-Holds past).kept
