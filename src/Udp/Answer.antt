-- ===== src/Udp/Answer.antt =====
-- The answer to an announce (biz/services/udp_server/announce.go) as a client reads it.
use trunker.Base.{
  ℕ, zero, suc, ◌+◌, ◌%◌, ◌^◌, ◌≤◌, ◌<◌, ◌≡◌, refl, ap, ◌∙◌, inl, inr, Bool, true, false, Option,
  none, some, List, [], ◌∷◌, ◌++◌, arith, ltb, if◌then◌else◌, Option-cases, length, take, drop,
  length-append, take-append, length-drop,
}
use mathlib.Core.List.{append_assoc}
use trunker.Base.Bytes.{
  Bytes, put_be, get_be, slice, get_be-put_be_mod, slice_skip, slice_here, drop_skip, get_be-put_be,
}
use trunker.Base.Int.{ℤ, pos, negsuc, wrap}
use trunker.Config.{Config}
use trunker.Net.{IpAddr, to4, to16, to4_bytes, to16_bytes, v4_prefix}
use trunker.Peer.{Peer, get_ip}
use trunker.Request.{ScrapeFile}
use trunker.Udp.Parse.{action_announce, write_header}
use trunker.Udp.Serve.{peer_entry, peer_entries, interval, announce_packet}

-- The bytes of an address in an answer.
abbrev pub address_width : Bool → ℕ
address_width is_ipv6 = if is_ipv6 then 16 else 4

-- A client's reading of n entries at most: address and port.
unfoldable pub read_entries : ℕ → ℕ → Bytes → List (Bytes × ℕ)
read_entries zero w b = []
read_entries (suc n) w b =
    let rest = read_entries n w (drop (w + 2) b) in
    if ltb (length b) (w + 2) then [] else (take w b, get_be (slice w (w + 2) b)) ∷ rest

-- The peers that have an address of the form asked for.
abbrev pub address_of : Bool → Bool → Peer → Option Bytes
address_of use_announce_ip is_ipv6 p =
    if is_ipv6 then to16 (get_ip use_announce_ip p) else to4 (get_ip use_announce_ip p)

unfoldable pub reachable : Bool → Bool → List Peer → List (Bytes × ℕ)
reachable use_announce_ip is_ipv6 [] = []
reachable use_announce_ip is_ipv6 (p ∷ ps) = elim (address_of use_announce_ip is_ipv6 p) [
  | none ↦ reachable use_announce_ip is_ipv6 ps
  | some b ↦ (b, wrap 16 p.port) ∷ reachable use_announce_ip is_ipv6 ps
]

length-to4 : (ip : IpAddr) (b : Bytes) → to4 ip ≡ some b → length b ≡ 4
unfolding to4 to4_bytes
length-to4 none b e = ground (arith, e)
length-to4 (some c) b e = ground (arith, e, length-drop 12 c)

length-to16 : (ip : IpAddr) (b : Bytes) → to16 ip ≡ some b → length b ≡ 16
unfolding to16 to16_bytes
length-to16 none b e = ground (arith, e)
length-to16 (some c) b e = ground (arith, e, length-append v4_prefix c)

wrap16-lt : (n : ℤ) → wrap 16 n < 256 ^ 2
unfolding wrap
wrap16-lt (pos n) = omega arith
wrap16-lt (negsuc n) = omega arith

length-address_of :
    (use_announce_ip is_ipv6 : Bool) (p : Peer) (b : Bytes)
    → address_of use_announce_ip is_ipv6 p ≡ some b
    → length b ≡ address_width is_ipv6
length-address_of u true p b e = length-to16 (get_ip u p) b e
length-address_of u false p b e = length-to4 (get_ip u p) b e

-- One step of the client's reading.
read_entries_cons :
    (n w : ℕ) (b : Bytes) (port : ℕ) (rest : Bytes)
    → length b ≡ w
    → port < 256 ^ 2
    → read_entries (suc n) w (b ++ (put_be 2 port ++ rest)) ≡ (b, port) ∷ read_entries n w rest
unfolding read_entries put_be
read_entries_cons n w b port rest e h =
    let whole = b ++ (put_be 2 port ++ rest) in
    let size : length whole ≡ w + (2 + length rest) =
      omega
        (arith, e, length-append b (put_be 2 port ++ rest), length-append (put_be 2 port) rest) in
    let long : ltb (length whole) (w + 2) ≡ false = ground (arith, size) in
    let address : take w whole ≡ b = rw (← e) (take-append b _) in
    let number : get_be (slice w (w + 2) whole) ≡ port =
      ap (λ i. get_be (slice i (w + 2) whole)) (omega arith)
      ∙ (ap get_be (slice_skip w 0 2 b _ e ∙ slice_here 2 (put_be 2 port) rest refl)
          ∙ get_be-put_be 2 port h) in
    let others : drop (w + 2) whole ≡ rest = rw (← e) (drop_skip 2 b _) in
    rw (long, address, number, others) refl

read_entries_nil : (n w : ℕ) → read_entries n w [] ≡ []
unfolding read_entries
read_entries_nil zero w = refl
read_entries_nil (suc n) w = ground arith

pub read_entries-peer_entries :
    (n : ℕ) (u is_ipv6 : Bool) (ps : List Peer)
    → length (reachable u is_ipv6 ps) ≤ n
    → read_entries n (address_width is_ipv6) (peer_entries u is_ipv6 ps) ≡ reachable u is_ipv6 ps
unfolding peer_entries peer_entry reachable
read_entries-peer_entries n u v [] h = read_entries_nil n (address_width v)
read_entries-peer_entries n u v (p ∷ ps) h = elim (Option-cases (address_of u v p)) [
  | inl e ↦
      let few : length (reachable u v ps) ≤ n = rw (e, length, reachable) at h in
      rw (e, reachable, peer_entries, peer_entry) (read_entries-peer_entries n u v ps few)
  | inr (b, e) ↦
      let few : suc (length (reachable u v ps)) ≤ n = rw (e, length, reachable) at h in
      present n b e few (λ k. read_entries-peer_entries k u v ps)
]
  where
    present :
        (n : ℕ) (b : Bytes)
        → address_of u v p ≡ some b
        → suc (length (reachable u v ps)) ≤ n
        → ((k : ℕ)
            → length (reachable u v ps) ≤ k
            → read_entries k (address_width v) (peer_entries u v ps) ≡ reachable u v ps)
        → read_entries n (address_width v) (peer_entries u v (p ∷ ps)) ≡ reachable u v (p ∷ ps)
    present zero b e h others = ground (arith, h)
    present (suc n) b e h others =
        let port = wrap 16 p.port in
        let rest = peer_entries u v ps in
        rw (e, peer_entries, peer_entry, reachable, append_assoc b (put_be 2 port) rest)
          (read_entries_cons n (address_width v) b port rest (length-address_of u v p b e)
              (wrap16-lt p.port)
            ∙ ap (◌∷◌ (b, port)) (others n (omega (arith, h))))

pub length-reachable-le :
    (u is_ipv6 : Bool) (ps : List Peer) → length (reachable u is_ipv6 ps) ≤ length ps
unfolding reachable
length-reachable-le u v [] = omega arith
length-reachable-le u v (p ∷ ps) = elim (Option-cases (address_of u v p)) [
  | inl e ↦ rw (e, length) (omega (arith, length-reachable-le u v ps))
  | inr (b, e) ↦ rw (e, length) (omega (arith, length-reachable-le u v ps))
]

-- A client reads from the answer the action, the transaction id, the interval and the two counts,
-- and behind them exactly the peers that have an address of the client's form, in order, each with
-- its address and the low 16 bits of its port.
pub read-announce_packet :
    (cfg : Config) (jitter : ℕ) (is_ipv6 : Bool) (tid : ℕ) (f : ScrapeFile) (ps : List Peer)
    → tid < 2 ^ 32
    → let packet = announce_packet cfg jitter is_ipv6 tid f ps in
      (get_be (slice 0 4 packet) ≡ action_announce)
      × (get_be (slice 4 8 packet) ≡ tid)
      × (get_be (slice 8 12 packet) ≡ interval cfg jitter)
      × (get_be (slice 12 16 packet) ≡ f.incomplete % 2 ^ 32)
      × (get_be (slice 16 20 packet) ≡ f.seeder % 2 ^ 32)
      × (read_entries (length ps) (address_width is_ipv6) (drop 20 packet)
          ≡ reachable cfg.use_announce_ip is_ipv6 ps)
unfolding announce_packet write_header interval
read-announce_packet cfg jitter is_ipv6 tid f ps h = (
  get_be-put_be_mod 4 1,
  get_be-put_be 4 tid h,
  get_be-put_be 4 (interval cfg jitter) (omega arith),
  get_be-put_be_mod 4 f.incomplete,
  get_be-put_be_mod 4 f.seeder,
  read_entries-peer_entries (length ps) cfg.use_announce_ip is_ipv6 ps
      (length-reachable-le cfg.use_announce_ip is_ipv6 ps),
)
