-- ===== src/Http/Bencode.antt =====
-- biz/model/fast_bencode.go: what is written to the response; a write to it does not fail.
pub mod Read
use trunker.Base.{
  ℕ, zero, suc, ◌+◌, ◌-◌, ◌*◌, ◌/◌, ◌%◌, ◌^◌, ◌≤◌, ◌<◌, min, ◌≡◌, refl, sym, ap, ap₂, ◌∙◌, ◌≢◌, ◌↔◌,
  ◌⊎◌, inl, inr, Bool, true, false, not, ◌&&◌, ◌||◌, Option, none, some, List, [], ◌∷◌, ◌++◌, map,
  arith, ltb, leb, ◌==◌, if◌then◌else◌, ltb→lt, lt→ltb, leb→le, ==_iff, tests, Bool-cases,
  Option-cases, is_some, get_or_else, or_else, length, take, drop, replicate, All, filter, count,
  length-append, All-append, take-append, drop-append, filter_skip, filter_add, length-take,
  length-drop, count-append,
}
use trunker.Base.Bytes.{Bytes, codes}
use trunker.Base.Int.{ℤ, pos, negsuc}
use trunker.Base.Decimal.{itoa}

-- AnnounceCompactResponse and ErrorResponse of biz/model/http.go.
pub record AnnounceCompactResponse : Type 0 where
  pub interval : ℤ
  pub complete : ℤ
  pub incomplete : ℤ
  pub external_ip : Bytes
  pub tracker_id : Bytes
  pub peers : Bytes
  pub peers6 : Bytes

pub record ErrorResponse : Type 0 where
  pub failure_reason : Bytes
  pub retry : Bytes
  pub tracker_id : Bytes

-- `strconv.Itoa`.
abbrev pub itoa_int : ℤ → Bytes
itoa_int (pos n) = itoa n
itoa_int (negsuc n) = codes "-" ++ itoa (suc n)

-- `writeString` and `writeBytes`.
unfoldable pub write_string : Bytes → Bytes
write_string s = itoa (length s) ++ (codes ":" ++ s)

unfoldable pub write_int : ℤ → Bytes
write_int i = codes "i" ++ (itoa_int i ++ codes "e")

-- An entry that is written if it is not empty.
abbrev pub unless_empty : Bytes → Bytes → Bytes
unless_empty key s = if ltb 0 (length s) then key ++ write_string s else []

unfoldable pub bencode_error : ErrorResponse → Bytes
unfolding write_string
bencode_error e =
    codes "d14:failure reason"
    ++ (write_string e.failure_reason
        ++ (codes "8:retry in"
            ++ (write_string e.retry
                ++ (unless_empty (codes "10:tracker id") e.tracker_id ++ codes "e"))))

unfoldable pub bencode_announce : AnnounceCompactResponse → Bytes
unfolding write_string write_int
bencode_announce a =
    codes "d8:complete"
    ++ (write_int a.complete
        ++ (codes "11:external ip"
            ++ (write_string a.external_ip
                ++ (codes "10:incomplete"
                    ++ (write_int a.incomplete
                        ++ (codes "8:interval"
                            ++ (write_int a.interval
                                ++ (codes "5:peers"
                                    ++ (write_string a.peers
                                        ++ (unless_empty (codes "6:peers6") a.peers6
                                            ++ (unless_empty (codes "10:tracker id") a.tracker_id
                                                ++ codes "e")))))))))))
