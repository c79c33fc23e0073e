-- ===== src/Database/Adaptor.antt =====
-- A peer through a row of the database.
use trunker.Base.{ℕ, ◌/◌, ◌%◌, ◌≡◌, refl, ap, none, [], ◌∷◌, arith, All}
use trunker.Base.Bytes.{Bytes, IsByte}
use trunker.Peer.{Peer}
use trunker.Ban.Hex.{hex_encode, hex_value-hex_digit}
use trunker.Database.{decode_string, common_to_db, db_to_common}

pub decode_string-hex_encode : (bs : Bytes) → All IsByte bs → decode_string (hex_encode bs) ≡ bs
unfolding hex_encode decode_string
decode_string-hex_encode [] h = refl
decode_string-hex_encode (b ∷ bs) (h, hs) = ground (
  arith,
  h,
  hex_value-hex_digit (b / 16) (omega (arith, h)),
  hex_value-hex_digit (b % 16) (omega arith),
  decode_string-hex_encode bs hs,
)

-- A peer whose id consists of bytes is, after its way through a row, the same but for its connection,
-- which a row does not keep.
pub db_to_common-common_to_db :
    (now : ℕ) (info_hash : Bytes) (p : Peer)
    → All IsByte p.id
    → db_to_common (common_to_db now info_hash p) ≡ record p { conn = none }
unfolding common_to_db db_to_common
db_to_common-common_to_db now info_hash p h =
    ap (λ i. record p { id = i; conn = none }) (decode_string-hex_encode p.id h)
