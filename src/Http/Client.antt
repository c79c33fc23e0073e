-- ===== src/Http/Client.antt =====
-- `GetClientIP` of utils/http/header.go.
use trunker.Base.{none, List, [], ◌∷◌, ◌==◌, if◌then◌else◌, or_else, length}
use trunker.Base.Bytes.{Bytes}
use trunker.Net.{IpAddr}
use trunker.Net.Parse.{parse_ip}

-- `strings.Split(s, ",")`.
unfoldable pub split_comma : Bytes → List Bytes
split_comma [] = [] ∷ []
split_comma (c ∷ s) = onto (split_comma s)
  where
    onto : List Bytes → List Bytes
    onto [] = [] ∷ []
    onto (w ∷ ws) = if c == 44 then [] ∷ (w ∷ ws) else (c ∷ w) ∷ ws

unfoldable pub first_ip : List Bytes → IpAddr
first_ip [] = none
first_ip (ip ∷ ips) = or_else (parse_ip ip) (first_ip ips)

-- The values of the headers X-Forwarded-For and X-Real-IP in this order, and `c.ClientIP()`, which the
-- HTTP library makes.
unfoldable pub get_client_ip : List Bytes → Bytes → IpAddr
unfolding split_comma first_ip
get_client_ip [] client_ip = if length client_ip == 0 then none else parse_ip client_ip
get_client_ip (ip ∷ headers) client_ip =
    let rest = get_client_ip headers client_ip in
    if length ip == 0 then rest else or_else (first_ip (split_comma ip)) rest
