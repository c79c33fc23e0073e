-- ===== src/Rpc/Transport.antt =====
-- The calls between servers, on the wire: what the library of the calls does to a service. It has no
-- code in the repository but the IDL, and what is relied on is that a struct of the IDL arrives as it
-- was sent, but for addresses that are missing or empty, and that an error arrives as some error.
use trunker.Base.{map}
use trunker.Base.Bytes.{Bytes}
use trunker.Net.{IpAddr}
use trunker.Rpc.{received_bytes, received_peer}
use trunker.Rpc.Requests.{IdlAnnounceRequest}
use trunker.Rpc.Server.{TrunkerService}
use trunker.Tracker.{Outcome, done, failed}

unfoldable pub received_request : IpAddr → IdlAnnounceRequest → IdlAnnounceRequest
unfolding received_bytes
received_request empty req = record req { client_ip = received_bytes empty req.client_ip }

-- `wrap_error` is the text under which the error of a server reaches its client.
module _ (wrap_error : Bytes → Bytes) where
  unfoldable pub carry : {A B : Type 0} → (A → B) → Outcome A → Outcome B
  carry f (done a) = done (f a)
  carry f (failed e) = failed (wrap_error e)

  abbrev pub over : {S A B : Type 0} → (A → B) → S × Outcome A → S × Outcome B
  over f r = (r.0, carry f r.1)

  abbrev pub transport : IpAddr → TrunkerService → TrunkerService
  transport empty t = record {
    State = t.State;
    announce =
        λ req s. over (map (received_peer empty)) (t.announce (received_request empty req) s);
    scrape = λ hashes s. over (λ res. res) (t.scrape hashes s);
    get_statistic = λ s. over (λ info. info) (t.get_statistic s);
    ban = λ target key s. over (λ u. u) (t.ban target key s);
    delete_info_hash = λ hash s. over (λ u. u) (t.delete_info_hash hash s);
    get_peer = λ hash s. over (map (received_peer empty)) (t.get_peer hash s);
  }
