-- ===== src/Base/Little.antt =====
-- `binary.LittleEndian` of the standard library: numbers as bytes, the lowest first.
use Prim.Native.Nat.{ℕ, zero, suc, ◌+◌, ◌*◌, ◌/◌, ◌%◌, ◌^◌, ◌<◌}
use mathlib.Core.Path.{◌≡◌, refl, ap}
use mathlib.Core.List.{[], ◌∷◌}
use native.Mathlib.Omega.{arith}
use native.Mathlib.Nat.{pow-suc}
use trunker.Base.Lists.{length}
use trunker.Base.Bytes.{Bytes}

-- `PutUint32` for n = 4.
unfoldable pub put_le : ℕ → ℕ → Bytes
put_le zero v = []
put_le (suc n) v = v % 256 ∷ put_le n (v / 256)

-- `Uint32` of a slice of that length.
unfoldable pub get_le : Bytes → ℕ
get_le [] = 0
get_le (b ∷ bs) = b + 256 * get_le bs

pub get_le-put_le : (n v : ℕ) → v < 256 ^ n → get_le (put_le n v) ≡ v
unfolding put_le get_le
get_le-put_le zero v h = omega arith
get_le-put_le (suc n) v h =
    let e : 256 ^ suc n ≡ 256 ^ n * 256 = pow-suc 256 n in
    rw (get_le-put_le n (v / 256) (omega arith)) (omega arith)

pub length-put_le : (n v : ℕ) → length (put_le n v) ≡ n
unfolding put_le
length-put_le zero v = refl
length-put_le (suc n) v = ap suc (length-put_le n (v / 256))
