-- ===== src/Ban/Tests.antt =====
-- Bans on a filter that has no false positives either.
use trunker.Base.{◌≡◌, refl, true, none, List, [], ◌∷◌, arith, replicate, All}
use trunker.Base.Bytes.{Bytes, eq_bytes_refl}
use trunker.Ban.Item.{
  Bloom, IsBloom, BanFile, BanItem, Io, scanned, read_ban, new_ban_item, test, add,
}
use trunker.Ban.Kept.{IsTarget, has, loaded, added, reported, History-test}

abbrev exact : Bloom
exact = record { Filter = List Bytes; new = λ n. []; add = λ k f. k ∷ f; test = has }

exact-IsBloom : IsBloom exact
unfolding has
exact-IsBloom = record {
  test-add = λ k f. ground (arith, eq_bytes_refl k);
  test-add_other = λ j k f h. ground (arith, h);
}

abbrev no_errors : Io
no_errors = record { read_error = none; write_error = none; written = 0; sync_error = none }

abbrev client : Bytes
client = replicate 20 65

client-IsTarget : IsTarget client
client-IsTarget = ground arith

abbrev no_lines : BanFile
no_lines = record { lines = []; partial = [] }

abbrev empty_item : BanItem exact
empty_item = new_ban_item no_lines

History-test_example :
    let i = (add no_errors client empty_item).0 in
    All
      (λ k. (test k i ≡ true) × (test k (new_ban_item {B = exact} i.store) ≡ true))
      (reported exact-IsBloom client
        (add no_errors client empty_item).1
        (read_ban (scanned no_lines)))
History-test_example =
    History-test exact-IsBloom (add no_errors client empty_item).0 _
      (added no_errors client client-IsTarget refl (loaded no_lines tt refl))
