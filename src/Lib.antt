-- ===== src/Lib.antt =====
-- Trunker, a BitTorrent tracker.
--
-- A client announces a torrent to the tracker over HTTP, UDP or a websocket; the server of that
-- protocol makes a request of it and calls the peer manager, which keeps the peers of each torrent
-- and answers with some of them. This library models the manager of one shard, the maps that it
-- keeps its state in, the manager of all shards with its bans, and the UDP server and the HTTP
-- handler, which are clients of a manager.
--
-- Peer, Peer/Event  biz/services/peer/common/peer.go: a peer, its address, its key and its event.
-- Request, Config  biz/model/http.go and biz/config/init.go: the fields that the other parts read.
-- Net  Go's package net as far as it is called: ParseIP, String, To4, To16, IsPrivate, IsLoopback.
-- Mapx  utils/collections/mapx: the interface SyncStringMap with its documented behaviour IsMap
--   (Mapx), and the implementation on sync.Map (Mapx/SyncMap), which fills it (Mapx/SyncMap/Laws).
-- Local/Root  biz/services/peer/local/local.go: InfoHashRoot, the three maps of one torrent. Its
--   methods keep their names in snake case. View and Tidy are about its invariant.
-- Local/Manager, Local/Handlers, Local/Scrape, Local/Clean  local.go and clean.go: HandleAnnouncePeer,
--   its goroutines `update` and `delete_all`, Scrape, GetStatistic, the admin calls and Clean.
-- Local/System  the shard under any sequence of calls and goroutines, as a step relation.
-- Local/Respond, Local/Tally, Local/Cleaned, Local/Capacity  what answers, scrapes, cleanings and the
--   write head do.
-- Ban  biz/services/peer/mux_local/ban: manager.go (Ban), item.go (Ban/Item), and the interface and the
--   fallback of ip_filter.go (Ban/IpFilter). Ban/Kept is about item.go.
-- Mux, Mux/Admin  biz/services/peer/mux_local/mux_manager.go: the shards behind the bans.
-- Http/Announce, Http/Compact, Http/Bencode  biz/handler/announce.go, PeersToCompact of peer.go, and
--   biz/model/fast_bencode.go.
-- Http/Client  GetClientIP of utils/http/header.go.
-- Rpc, Rpc/Peers, Rpc/Requests  biz/services/peer/rpc/adaptor.go and biz/services/rpc/adaptor.go: peers
--   and requests in the form of the calls between servers.
-- Rpc/Server, Rpc/Client, Rpc/Transport, Rpc/Composed  biz/services/rpc/handler.go,
--   biz/services/peer/rpc/client.go, and the one over the other.
-- Admin, Admin/Each  biz/handler/admin.go, over the interface of the managers.
-- Ws, Ws/Handlers  biz/services/peer/websocket/local.go and biz/model/ws.go. Picked is about the answer
--   of an announce and Closed about a client that leaves.
-- Webtorrent, Webtorrent/Loop  biz/handler/webtorrent.go. Offers is about who is sent an offer.
-- Database, Database/Manager  biz/services/peer/database: the rows and the queries, and the manager. Picked
--   is about its answers, Restored about its bans after a restart and Adaptor about its rows.
-- Snapshot  biz/services/peer/mux_local/persist.go: the files of the peers. Input is the buffered reader
--   of the standard library; Frames, Loaded, Found, RoundTrip, Written, Restart and Ends are about the
--   loops and about what is loaded.
-- Xdp, Xdp/Ports, Xdp/Interface  biz/services/peer/mux_local/ban/xdp/filter.go and
--   biz/services/peer/mux_local/ban/ip_filter_xdp_linux.go: the
--   filter of the kernel and its start. Address, Changes and History are about its keys.
-- Config/Defaults  injectDefaultValue of biz/config/init.go.
-- Tracker  biz/services/peer/manager.go: the interface PeerManager, and the monad of its callers.
-- Udp/Parse, Udp/Connect, Udp/Serve  biz/services/udp_server: parse.go, connect.go, announce.go and
--   handleRequest of server.go. Packet, Answer, Session and Expiry are about them.
--
-- A handler is one step. The goroutines that it starts are returned as tasks and are run by
-- later steps, each whole, in any order. A root is allocated with a serial number in place of
-- its address, so that a task can tell its root from a new one of the same torrent. Clocks and
-- random numbers are arguments; the events for the message queue and the connections to close
-- are returned as effects. A Bloom filter is a parameter that has no false negatives. Maps are
-- lists of entries behind the interface, so a Range has some order and no more is known of it.
-- DirectStore, which restores a snapshot, is not a step: it does not keep the invariant of a
-- root. Numbers of Go's int that the code compares with 0 are integers; the others are natural,
-- with the wrap of the conversions written out. The fuel of `info_hashes`, of the client's
-- `read_entries` and of the digits of a number is the length of the packet, the number of peers, and
-- the number and one more. `load_loop` and `fill` run on the length of the file and on the bytes that
-- are missing, and one more: a round reads at least one byte.
--
-- Not modelled: the shards of the websocket manager, the BPF program, metrics, logs and start-up. The
-- database itself and its library are a parameter, with the conditions of the queries as tests.
pub mod Base
pub mod Net
pub mod Config
pub mod Peer
pub mod Request
pub mod Mapx
pub mod Local
pub mod Tracker
pub mod Udp
pub mod Ban
pub mod Mux
pub mod Http
pub mod Rpc
pub mod Snapshot
pub mod Xdp
pub mod Admin
pub mod Ws
pub mod Webtorrent
pub mod Database
