-- ===== src/Udp/Connect.antt =====
-- biz/services/udp_server/connect.go, and the types of server.go. The generator of connection ids
-- and the socket are not in the repository: an id, or the error in its place, is an argument, and so
-- is whether a write succeeds.
use trunker.Base.{ℕ, ◌+◌, ◌*◌, List, [], ◌∷◌, ◌++◌, ltb, if◌then◌else◌}
use trunker.Base.Bytes.{Bytes, put_be}
use trunker.Base.Equality.{nat_eq}
use trunker.Config.{second}
use trunker.Mapx.SyncMap.{SyncMap, load_or_store, delete, range}
use trunker.Udp.Parse.{action_connect, action_error, write_header}

-- The address is its text, `remoteAddr.String()`.
pub record Connection : Type 0 where
  pub id : ℕ
  pub remote_addr : Bytes
  pub time : ℕ

abbrev pub Connections : Type 0
Connections = SyncMap ℕ Connection

-- `uint64(newId.ToInt())` of an int64.
unfoldable pub connection_packet : ℕ → ℕ → Bytes
unfolding write_header put_be
connection_packet tid cid = write_header action_connect tid ++ put_be 8 cid

-- The id is registered for the address and sent to it.
unfoldable pub register : Bytes → ℕ → ℕ → Connections → Connections
unfolding load_or_store
register remote now cid conns =
    (load_or_store cid (record { id = cid; remote_addr = remote; time = now }) conns).0

abbrev pub connection_timeout : ℕ
connection_timeout = 120 * second

-- The range deletes the entries that it visits.
unfoldable pub clean_list : ℕ → List (ℕ × Connection) → Connections → Connections
unfolding delete
clean_list now [] conns = conns
clean_list now ((id, c) ∷ rest) conns =
    let kept = if ltb (c.time + connection_timeout) now then (delete id conns).0 else conns in
    clean_list now rest kept

unfoldable pub clean_connection : ℕ → Connections → Connections
unfolding clean_list range
clean_connection now conns = clean_list now (range conns) conns

unfoldable pub response_error : ℕ → Bytes → Bytes
unfolding write_header
response_error tid reason = write_header action_error tid ++ reason
