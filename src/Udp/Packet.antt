-- ===== src/Udp/Packet.antt =====
-- The announce request of the UDP tracker protocol as a client writes it, and
-- biz/services/udp_server/parse.go, which reads it.
use trunker.Base.{ℕ, ◌%◌, ◌^◌, ◌<◌, ◌≡◌, ◌++◌, ◌==◌, if◌then◌else◌, length}
use trunker.Base.Bytes.{Bytes, codes, put_be}
use trunker.Base.Int.{pos, signed64}
use trunker.Request.{AnnounceRequest}
use trunker.Udp.Parse.{empty_request}

-- The fields of a packet after its header, each an unsigned number of its width.
pub record Announce : Type 0 where
  pub info_hash : Bytes
  pub peer_id : Bytes
  pub downloaded : ℕ
  pub left : ℕ
  pub uploaded : ℕ
  pub event : ℕ
  pub ip : Bytes
  pub key : ℕ
  pub num_want : ℕ
  pub port : ℕ

-- The fields are of the protocol's widths, the address of n bytes.
pub record IsAnnounce (n : ℕ) (a : Announce) : Type 0 where
  pub info_hash_length : length a.info_hash ≡ 20
  pub peer_id_length : length a.peer_id ≡ 20
  pub downloaded_lt : a.downloaded < 2 ^ 64
  pub left_lt : a.left < 2 ^ 64
  pub uploaded_lt : a.uploaded < 2 ^ 64
  pub event_lt : a.event < 2 ^ 32
  pub ip_length : length a.ip ≡ n
  pub num_want_lt : a.num_want < 2 ^ 32
  pub port_lt : a.port < 2 ^ 16

-- The fields after the event.
abbrev pub put_address : Announce → Bytes → Bytes
put_address a rest = a.ip ++ (put_be 4 a.key ++ (put_be 4 a.num_want ++ (put_be 2 a.port ++ rest)))

abbrev pub put_announce : Announce → Bytes → Bytes
put_announce a rest =
    a.info_hash
    ++ (a.peer_id
        ++ (put_be 8 a.downloaded
            ++ (put_be 8 a.left
                ++ (put_be 8 a.uploaded ++ (put_be 4 a.event ++ put_address a rest)))))

-- The name of the event that a number stands for, by its low byte. 1 is started, 2 stopped and 3
-- completed: the layout in the comments of parse.go has another order. A client that sends no event
-- is taken as started.
abbrev pub event_name : ℕ → Bytes
event_name n =
    let b = n % 256 in
    if b == 0
    then codes "started"
    else if b == 1
    then codes "started"
    else if b == 2
    then codes "stopped"
    else if b == 3
    then codes "completed"
    else codes "unknown"

-- What the server shall read, without the address.
abbrev pub request_of : Announce → AnnounceRequest
request_of a = record empty_request {
  info_hash = a.info_hash;
  peer_id = a.peer_id;
  downloaded = signed64 a.downloaded;
  left = signed64 a.left;
  uploaded = signed64 a.uploaded;
  event = event_name a.event;
  num_want = pos a.num_want;
  port = pos a.port;
}
