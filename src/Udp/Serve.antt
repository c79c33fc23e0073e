-- ===== src/Udp/Serve.antt =====
-- biz/services/udp_server/announce.go and `handleRequest` of server.go. Metrics and logs are not
-- modelled: `context` is the label that a request gets for them.
use trunker.Base.{
  ℕ, zero, suc, ◌+◌, ◌-◌, ◌%◌, ◌^◌, Bool, not, ◌&&◌, Option, none, some, List, [], ◌∷◌, ◌++◌, ltb,
  leb, ◌==◌, if◌then◌else◌, is_some, length, take, drop,
}
use trunker.Base.Bytes.{Bytes, codes, eq_bytes, put_be, get_be, slice}
use trunker.Base.Equality.{nat_eq}
use trunker.Base.Int.{wrap}
use trunker.Config.{Config}
use trunker.Mapx.SyncMap.{load}
use trunker.Net.{IpAddr, to4, to16}
use trunker.Net.Print.{ip_string}
use trunker.Peer.{Peer, Source, bittorrent, get_ip}
use trunker.Request.{AnnounceRequest, ScrapeFile}
use trunker.Tracker.{Outcome, done, failed, PeerManager, Action, return, ◌>>=◌}
use trunker.Udp.Connect.{Connections, connection_packet, register, response_error}
use trunker.Udp.Parse.{
  protocol_id, action_connect, action_announce, action_scrape, parse_announce_request_v4,
  parse_announce_request_v6, write_header,
}

abbrev invalid_announce : Outcome AnnounceRequest
invalid_announce = failed (codes "invalid announce request")

-- `net.IPv4zero.String()` and `net.IPv6zero.String()`.
abbrev zero_or : Bytes → Bytes → Bytes → Bytes
zero_or unset remote ip = if eq_bytes ip unset then remote else ip

-- The request of a packet from `remote`, by the two forms of packets.
unfoldable pub read_announce : IpAddr → Bytes → Outcome AnnounceRequest
read_announce remote b =
    let v4 = parse_announce_request_v4 b in
    let v6 = parse_announce_request_v6 b in
    let text = ip_string remote in
    let own = λ (r : AnnounceRequest). record r {
      client_ip = remote;
      type = bittorrent;
      source = Source.udp;
    } in
    if is_some (to4 remote)
    then (if ltb (length b) 82
        then invalid_announce
        else done (own (record v4 { ipv4 = zero_or (codes "0.0.0.0") text v4.ipv4 })))
    else if ltb (length b) 94
    then (if leb 82 (length b)
        then done (own (record v4 { ipv4 = []; ipv6 = text }))
        else invalid_announce)
    else done (own (record v6 { ipv6 = zero_or (codes "::") text v6.ipv6 }))

-- One peer of an answer, in the form of the remote address; one of the other form is left out.
unfoldable pub peer_entry : Bool → Bool → Peer → Bytes
unfolding get_ip put_be to4 to16
peer_entry use_announce_ip is_ipv6 p =
    let ip = get_ip use_announce_ip p in
    elim (if is_ipv6 then to16 ip else to4 ip) [
      | none ↦ []
      | some b ↦ b ++ put_be 2 (wrap 16 p.port)
    ]

unfoldable pub peer_entries : Bool → Bool → List Peer → Bytes
unfolding peer_entry
peer_entries use_announce_ip is_ipv6 [] = []
peer_entries use_announce_ip is_ipv6 (p ∷ ps) =
    peer_entry use_announce_ip is_ipv6 p ++ peer_entries use_announce_ip is_ipv6 ps

-- `uint32(TTL + int64(fastrand.Intn(201)-100))`; `jitter` is the random number, below 201.
unfoldable pub interval : Config → ℕ → ℕ
interval cfg jitter = (cfg.ttl + 2 ^ 32 + jitter - 100) % 2 ^ 32

unfoldable pub announce_packet : Config → ℕ → Bool → ℕ → ScrapeFile → List Peer → Bytes
unfolding interval peer_entries write_header put_be
announce_packet cfg jitter is_ipv6 tid scrape res =
    write_header action_announce tid
    ++ (put_be 4 (interval cfg jitter)
        ++ (put_be 4 scrape.incomplete
            ++ (put_be 4 scrape.seeder ++ peer_entries cfg.use_announce_ip is_ipv6 res)))

-- The whole info hashes of a scrape packet; a rest shorter than 20 bytes is left out.
unfoldable pub info_hashes : ℕ → Bytes → List Bytes
info_hashes zero buf = []
info_hashes (suc n) buf =
    let rest = info_hashes n (drop 20 buf) in if ltb (length buf) 20 then [] else take 20 buf ∷ rest

unfoldable pub scrape_entry : ScrapeFile → Bytes
unfolding put_be
scrape_entry f = put_be 4 f.seeder ++ (put_be 4 f.complete ++ put_be 4 f.incomplete)

module _ (m : PeerManager) where
  unfoldable pub handle_announce : Config → ℕ → IpAddr → ℕ → Bytes → Action m.State Bytes
  handle_announce cfg jitter remote tid b = do
    req ← λ s. (s, read_announce remote b)
    res ← m.handle_announce_peer req
    f ← m.scrape req.info_hash
    return (announce_packet cfg jitter (not (is_some (to4 remote))) tid f res)

  -- The scrapes are made in order; the first error ends them.
  unfoldable pub scrape_all : List Bytes → Action m.State Bytes
  unfolding scrape_entry
  scrape_all [] = return []
  scrape_all (h ∷ hs) = do f ← m.scrape h; rest ← scrape_all hs; return (scrape_entry f ++ rest)

  unfoldable pub handle_scrape : ℕ → Bytes → Action m.State Bytes
  unfolding scrape_all info_hashes write_header
  handle_scrape tid buf = do
    body ← scrape_all (info_hashes (length buf) buf)
    return (write_header action_scrape tid ++ body)

  -- The server and the manager after a request, the packet sent, the label, and the error that
  -- `handleRequest` returns.
  pub record Turn : Type 0 where
    pub connections : Connections
    pub state : m.State
    pub sent : Option Bytes
    pub context : Option Bytes
    pub error : Option Bytes

  -- What is sent for the outcome of an action: the packet, or the error.
  abbrev pub answer : Connections → ℕ → Bytes → m.State × Outcome Bytes → Turn
  answer conns tid label (s, done packet) = record {
    connections = conns;
    state = s;
    sent = some packet;
    context = some label;
    error = none;
  }
  answer conns tid label (s, failed e) = record {
    connections = conns;
    state = s;
    sent = some (response_error tid e);
    context = some label;
    error = none;
  }

  abbrev pub refuse : Connections → ℕ → Bytes → m.State → Turn
  refuse conns tid reason s = record {
    connections = conns;
    state = s;
    sent = some (response_error tid reason);
    context = none;
    error = none;
  }

  -- `handleConnection`: `new_id` is the generated id, or the generator's error; `wrote` is the error
  -- of the write, if there is one.
  unfoldable pub handle_connection :
      Bytes → ℕ → ℕ → Outcome ℕ → Option Bytes → Connections → m.State → Turn
  unfolding register connection_packet
  handle_connection remote now tid new_id wrote conns s = elim new_id [
    | failed e ↦ record {
      connections = conns;
      state = s;
      sent = none;
      context = some (codes "connection");
      error = some e;
    }
    | done cid ↦ record {
      connections = register remote now cid conns;
      state = s;
      sent = some (connection_packet tid cid);
      context = some (codes "connection");
      error = wrote;
    }
  ]

  -- The switch on the action of a request on a known connection.
  unfoldable pub dispatch : Config → ℕ → IpAddr → ℕ → ℕ → Bytes → Connections → m.State → Turn
  dispatch cfg jitter remote_ip action tid body conns s =
      if action == action_announce
      then answer conns tid (codes "announce") (handle_announce cfg jitter remote_ip tid body s)
      else if action == action_scrape
      then answer conns tid (codes "scrape") (handle_scrape tid body s)
      else answer conns tid (codes "unknown") (s, failed (codes "invalid action"))

  -- `remote` is the text of the remote address, and `remote_ip` its IP.
  unfoldable pub handle_request :
      Config
      → ℕ
      → ℕ
      → Bytes
      → IpAddr
      → Outcome ℕ
      → Option Bytes
      → Bytes
      → Connections
      → m.State
      → Turn
  handle_request cfg now jitter remote remote_ip new_id wrote buf conns s =
      let connection_id = get_be (slice 0 8 buf) in
      let action = get_be (slice 8 12 buf) in
      let tid = get_be (slice 12 16 buf) in
      if ltb (length buf) 16
      then record {
        connections = conns;
        state = s;
        sent = none;
        context = none;
        error = some (codes "invalid request");
      }
      else if connection_id == protocol_id && action == action_connect
      then handle_connection remote now tid new_id wrote conns s
      else elim (load connection_id conns) [
        | none ↦ refuse conns tid (codes "connection expired") s
        | some c ↦
            if eq_bytes c.remote_addr remote
            then dispatch cfg jitter remote_ip action tid (drop 16 buf) conns s
            else refuse conns tid (codes "connection mismatch") s
      ]
