-- ===== src/Admin.antt =====
-- biz/handler/admin.go, with the answers of utils/http/resp.go and the key of
-- biz/middleware/admin.go: what an administrator asks of the manager. The binding of a request by the
-- HTTP library is an argument, none where it fails.
pub mod Each
mod Tests
use trunker.Base.{
  ℕ, zero, suc, ◌+◌, ◌-◌, ◌*◌, ◌/◌, ◌%◌, ◌^◌, ◌≤◌, ◌<◌, min, ◌≡◌, refl, sym, ap, ap₂, ◌∙◌, ◌≢◌, ◌↔◌,
  ◌⊎◌, inl, inr, Bool, true, false, not, ◌&&◌, ◌||◌, Option, none, some, List, [], ◌∷◌, ◌++◌, map,
  arith, ltb, leb, ◌==◌, if◌then◌else◌, ltb→lt, lt→ltb, leb→le, ==_iff, tests, Bool-cases,
  Option-cases, is_some, get_or_else, or_else, length, take, drop, replicate, All, filter, count,
  length-append, All-append, take-append, drop-append, filter_skip, filter_add, length-take,
  length-drop, count-append,
}
use trunker.Base.Bytes.{Bytes, codes, eq_bytes}
use trunker.Base.Decimal.{itoa}
use trunker.Peer.{Peer}
use trunker.Xdp.{IpFilterStats}
use trunker.Tracker.{Outcome, done, failed, AdminManager, Action, and_then, ◌>>=◌, return}

-- The field `data` of an answer.
pub data Payload : Type 0 where
  nothing : Payload
  text : Bytes → Payload
  peers : List Peer → Payload
  filter_stats : IpFilterStats → Payload

-- commonResponse.
pub record Response : Type 0 where
  pub code : ℕ
  pub message : Bytes
  pub payload : Payload

unfoldable pub response_bad_request : Response
response_bad_request = record { code = 400; message = codes "Bad Request"; payload = nothing }

unfoldable pub response_err : Bytes → Response
response_err e = record { code = 500; message = e; payload = nothing }

unfoldable pub response_unauthorized : Response
response_unauthorized = record { code = 401; message = codes "Unauthorized"; payload = nothing }

unfoldable pub response_ok : Payload → Response
response_ok payload = record { code = 200; message = codes "ok"; payload = payload }

-- The answer to a call that may fail.
unfoldable pub respond : {S A : Type 0} → (A → Payload) → S × Outcome A → S × Response
unfolding response_ok response_err
respond payload (s, done a) = (s, response_ok (payload a))
respond payload (s, failed e) = (s, response_err e)

-- `latin1` is TransUTF8To8859_1, a conversion of a library.
module _ (m : AdminManager) (latin1 : Bytes → Bytes) where
  -- The loop of the handler, with a return at the first error.
  unfoldable pub ban_info_hashes : List Bytes → Action m.State (Unit {0})
  ban_info_hashes [] = return tt
  ban_info_hashes (x ∷ xs) = do u ← m.ban_info_hash (latin1 x); ban_info_hashes xs

  unfoldable pub handle_ban_info_hash : Option (List Bytes) → m.State → m.State × Response
  unfolding ban_info_hashes respond response_bad_request itoa
  handle_ban_info_hash none s = (s, response_bad_request)
  handle_ban_info_hash (some []) s = (s, response_bad_request)
  handle_ban_info_hash (some (x ∷ xs)) s =
      respond (λ u. text (itoa (length (x ∷ xs)) ++ codes " info hash banned"))
        (ban_info_hashes (x ∷ xs) s)

  -- The loop of the handler, with a return at the first error.
  unfoldable pub ban_peers : List Bytes → Action m.State (Unit {0})
  ban_peers [] = return tt
  ban_peers (x ∷ xs) = do u ← m.ban_peer (latin1 x); ban_peers xs

  unfoldable pub handle_ban_peer : Option (List Bytes) → m.State → m.State × Response
  unfolding ban_peers respond response_bad_request itoa
  handle_ban_peer none s = (s, response_bad_request)
  handle_ban_peer (some []) s = (s, response_bad_request)
  handle_ban_peer (some (x ∷ xs)) s =
      respond (λ u. text (itoa (length (x ∷ xs)) ++ codes " peer banned")) (ban_peers (x ∷ xs) s)

module _ (m : AdminManager) where
  unfoldable pub handle_clear_ban_info_hash : m.State → m.State × Response
  unfolding response_ok
  handle_clear_ban_info_hash s =
      (m.clear_ban_info_hash s, response_ok (text (codes "all info hash bans cleared")))

  unfoldable pub handle_clear_ban_peer : m.State → m.State × Response
  unfolding response_ok
  handle_clear_ban_peer s = (m.clear_ban_peer s, response_ok (text (codes "all peer bans cleared")))

  -- The info hash of the path is used as it is.
  unfoldable pub get_info_hash_peers : Option Bytes → m.State → m.State × Response
  unfolding respond response_bad_request
  get_info_hash_peers none s = (s, response_bad_request)
  get_info_hash_peers (some info_hash) s = respond peers (m.get_peers info_hash s)

  unfoldable pub delete_info_hash : Option Bytes → m.State → m.State × Response
  unfolding respond response_bad_request
  delete_info_hash none s = (s, response_bad_request)
  delete_info_hash (some info_hash) s = respond (λ u. nothing) (m.delete_info_hash info_hash s)

  -- The loop of the handler, with a return at the first error.
  unfoldable pub ban_ips : List Bytes → Action m.State (Unit {0})
  ban_ips [] = return tt
  ban_ips (x ∷ xs) = do u ← m.ban_ip x; ban_ips xs

  unfoldable pub handle_ban_ip : Option (List Bytes) → m.State → m.State × Response
  unfolding ban_ips respond response_bad_request itoa
  handle_ban_ip none s = (s, response_bad_request)
  handle_ban_ip (some []) s = (s, response_bad_request)
  handle_ban_ip (some (x ∷ xs)) s =
      respond (λ u. text (itoa (length (x ∷ xs)) ++ codes " IP(s) banned")) (ban_ips (x ∷ xs) s)

  -- The loop of the handler, with a return at the first error.
  unfoldable pub unban_ips : List Bytes → Action m.State (Unit {0})
  unban_ips [] = return tt
  unban_ips (x ∷ xs) = do u ← m.unban_ip x; unban_ips xs

  unfoldable pub handle_unban_ip : Option (List Bytes) → m.State → m.State × Response
  unfolding unban_ips respond response_bad_request itoa
  handle_unban_ip none s = (s, response_bad_request)
  handle_unban_ip (some []) s = (s, response_bad_request)
  handle_unban_ip (some (x ∷ xs)) s =
      respond (λ u. text (itoa (length (x ∷ xs)) ++ codes " IP(s) unbanned")) (unban_ips (x ∷ xs) s)

  unfoldable pub handle_clear_ban_ip : m.State → m.State × Response
  unfolding respond
  handle_clear_ban_ip s = respond (λ u. text (codes "all IP bans cleared")) (m.clear_ban_ip s)

  unfoldable pub handle_get_ip_filter_stats : m.State → m.State × Response
  unfolding response_ok response_err
  handle_get_ip_filter_stats s = elim (m.get_ip_filter_stats s) [
    | none ↦ (s, response_err (codes "IP filter not available"))
    | some stats ↦ (s, response_ok (filter_stats stats))
  ]

-- GetAdminAuthMiddleware in front of a handler: without a key in the environment there is no test.
unfoldable pub authorized : {S : Type 0} → Bytes → Bytes → (S → S × Response) → S → S × Response
unfolding response_unauthorized eq_bytes
authorized key header next s =
    if length key == 0 || eq_bytes header (codes "Bearer " ++ key)
    then next s
    else (s, response_unauthorized)
