-- ===== src/Ban/Item.antt =====
-- biz/services/peer/mux_local/ban/item.go. The Bloom filter is a library's: `Bloom` is its interface,
-- and `IsBloom` its documented behaviour, that it has no false negatives.
use trunker.Base.{
  ℕ, ◌+◌, ◌*◌, ◌%◌, ◌^◌, ◌≡◌, Bool, true, ◌&&◌, Option, none, some, List, [], ◌∷◌, ◌++◌, leb, ◌==◌,
  if◌then◌else◌, is_some, length, take,
}
use trunker.Base.Bytes.{Bytes}
use trunker.Ban.Hex.{hex_encode, hex_decode}

-- `new` is NewWithEstimates(n, 0.01).
pub record Bloom : Type 1 where
  pub Filter : Type 0
  pub new : ℕ → Filter
  pub add : Bytes → Filter → Filter
  pub test : Bytes → Filter → Bool

pub record IsBloom (B : Bloom) : Type 0 where
  pub test-add : (k : Bytes) (f : B.Filter) → B.test k (B.add k f) ≡ true
  pub test-add_other :
      (j k : Bytes) (f : B.Filter) → B.test j f ≡ true → B.test j (B.add k f) ≡ true

-- A file, as the lines that end with a newline and the bytes after them.
pub record BanFile : Type 0 where
  pub lines : List Bytes
  pub partial : Bytes

-- The lines that a scanner gives.
unfoldable pub scanned : BanFile → List Bytes
scanned f = if length f.partial == 0 then f.lines else f.lines ++ (f.partial ∷ [])

-- `store` is the file, to whose end the code writes.
pub record BanItem (B : Bloom) : Type 0 where
  pub filter : B.Filter
  pub cap : ℕ
  pub count : ℕ
  pub store : BanFile

-- The errors of reading and of writing the file, if there are any; a write that fails has written
-- the first `written` bytes of its line, and not the newline.
pub record Io : Type 0 where
  pub read_error : Option Bytes
  pub write_error : Option Bytes
  pub written : ℕ
  pub sync_error : Option Bytes

abbrev pub default_filter_cap : ℕ
default_filter_cap = 32

-- The keys in the lines of a file: a line that is not hexadecimal ends the reading, and a key of
-- another length than 20 is left out.
unfoldable pub read_ban : List Bytes → List Bytes
unfolding hex_decode
read_ban [] = []
read_ban (raw ∷ rest) =
    let keys = read_ban rest in
    elim (hex_decode raw) [
      | none ↦ []
      | some decoded ↦ if length decoded == 20 then decoded ∷ keys else keys
    ]

module _ (B : Bloom) where
  unfoldable pub add_keys : List Bytes → B.Filter → B.Filter
  add_keys [] f = f
  add_keys (k ∷ ks) f = add_keys ks (B.add k f)

module _ {B : Bloom} where
  unfoldable pub new_ban_item : BanFile → BanItem B
  unfolding add_keys read_ban scanned
  new_ban_item store = record {
    filter = add_keys B (read_ban (scanned store)) (B.new default_filter_cap);
    cap = default_filter_cap;
    count = 0;
    store = store;
  }

  unfoldable pub test : Bytes → BanItem B → Bool
  test target i = B.test target i.filter

  unfoldable pub clear : BanItem B → BanItem B
  clear i = record {
    filter = B.new default_filter_cap;
    cap = default_filter_cap;
    count = 0;
    store = record { lines = []; partial = [] };
  }

  -- The filter with the target, and the write of its line; the error, if there is one. `uint` has 64
  -- bits.
  unfoldable pub add : Io → Bytes → BanItem B → BanItem B × Option Bytes
  unfolding add_keys read_ban scanned hex_encode
  add io target i =
      let count = (i.count + 1) % 2 ^ 64 in
      let grow = leb i.cap count in
      let cap = if grow then i.cap * 2 % 2 ^ 64 else i.cap in
      let filter =
        if grow
        then B.add target (add_keys B (read_ban (scanned i.store)) (B.new cap))
        else B.add target i.filter in
      let added : BanItem B = record {
        filter = filter;
        cap = cap;
        count = count;
        store = i.store;
      } in
      if grow && is_some io.read_error
      then (record i { cap = cap }, io.read_error)
      else elim io.write_error [
        | some e ↦ (
          record added {
            store = record i.store {
              partial = i.store.partial ++ take io.written (hex_encode target);
            };
          },
          some e,
        )
        | none ↦ (
          record added {
            store = record {
              lines = i.store.lines ++ ((i.store.partial ++ hex_encode target) ∷ []);
              partial = [];
            };
          },
          io.sync_error,
        )
      ]
