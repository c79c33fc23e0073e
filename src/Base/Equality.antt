-- ===== src/Base/Equality.antt =====
-- `==` on the keys of a map.
use Prim.Native.Nat.{ℕ}
use mathlib.Core.Path.{◌≡◌}
use mathlib.Core.Logic.{◌↔◌}
use mathlib.Core.Bool.{Bool, true}
use trunker.Base.Tests.{==_iff, ◌==◌}
use trunker.Base.Bytes.{Bytes, eq_bytes, eq_bytes_iff}

pub record Eq (A : Type 0) : Type 0 where
  pub beq : A → A → Bool
  pub beq_iff : (a b : A) → (beq a b ≡ true) ↔ (a ≡ b)

instance abbrev pub nat_eq : Eq ℕ
nat_eq = record { beq = λ a b. a == b; beq_iff = ==_iff }

instance abbrev pub bytes_eq : Eq Bytes
bytes_eq = record { beq = eq_bytes; beq_iff = eq_bytes_iff }
