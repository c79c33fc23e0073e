-- ===== src/Local/Handlers/Cases.antt =====
-- The four ways in which HandleAnnouncePeer of biz/services/peer/local/local.go returns.
use trunker.Base.{ℕ, ◌≡◌, inl, inr, Bool, true, false, List, [], ◌∷◌, ◌++◌, arith, Bool-cases}
use trunker.Base.Bytes.{Bytes}
use trunker.Config.{Config}
use trunker.Request.{AnnounceRequest}
use trunker.Mapx.{SyncStringMap, IsMap}
use trunker.Peer.{Peer, get_key}
use trunker.Peer.Event.{stopped, eq_event}
use trunker.Local.Root.{InfoHashRoot, new_info_hash_root}
use trunker.Local.Root
use trunker.Local.Manager.{
  Result, ok, err, invalid_address, send_peer_event, Task, update_peer, peer_of, is_invalid_address,
  respond,
}
use trunker.Local.Handlers.{
  Manager, pend, Reply, put_root, find_or_add, callback_of, first_seen, handle_announce_peer,
}

module _ {P : SyncStringMap Peer} {R : SyncStringMap (InfoHashRoot P)} (cfg : Config) (now : ℕ)
    (req : AnnounceRequest) (m : Manager P R) where
  abbrev found : Manager P R × InfoHashRoot P × Bool
  found = find_or_add req.info_hash now m

  abbrev answer : InfoHashRoot P × List Peer × List Task
  answer = respond cfg now req (peer_of now req) found.1

  pub announce_cases {ℓ} :
      (C : Reply P R (Result (List Peer)) → Type ℓ)
      → (is_invalid_address (peer_of now req) ≡ true
          → C (record { manager = m; result = err invalid_address; tasks = []; effects = [] }))
      → (is_invalid_address (peer_of now req) ≡ false
          → found.2 ≡ false
          → C (record {
            manager = put_root req.info_hash (first_seen cfg (peer_of now req) found.1) found.0;
            result = ok [];
            tasks = [];
            effects =
                callback_of req (peer_of now req) found.1
                ++ (send_peer_event req.info_hash (peer_of now req) ∷ []);
          }))
      → (is_invalid_address (peer_of now req) ≡ false
          → found.2 ≡ true
          → eq_event (peer_of now req).event stopped ≡ true
          → C (record {
            manager =
                put_root req.info_hash
                  (Root.load_and_delete (get_key (peer_of now req)) found.1).0
                  found.0;
            result = ok [];
            tasks = [];
            effects = callback_of req (peer_of now req) found.1;
          }))
      → (is_invalid_address (peer_of now req) ≡ false
          → found.2 ≡ true
          → eq_event (peer_of now req).event stopped ≡ false
          → C (record {
            manager = put_root req.info_hash answer.0 found.0;
            result = ok answer.1;
            tasks = pend req.info_hash found.1.serial (update_peer (peer_of now req) ∷ answer.2);
            effects = callback_of req (peer_of now req) found.1;
          }))
      → C (handle_announce_peer cfg now req m)
  unfolding handle_announce_peer
  announce_cases C invalid new stop pick =
      elim (Bool-cases (is_invalid_address (peer_of now req))) [
        | inl i ↦ rw i (invalid i)
        | inr i ↦ rw i (elim (Bool-cases found.2) [
          | inr f ↦ rw f (new i f)
          | inl f ↦ rw f (elim (Bool-cases (eq_event (peer_of now req).event stopped)) [
            | inl s ↦ rw s (stop i f s)
            | inr s ↦ rw s (pick i f s)
          ])
        ])
      ]

-- A torrent that was not in the map gets a new root.
pub find_or_add_new :
    {P : SyncStringMap Peer} {R : SyncStringMap (InfoHashRoot P)} (roots : IsMap (InfoHashRoot P) R)
    (h : Bytes) (now : ℕ) (m : Manager P R)
    → (find_or_add h now m).2 ≡ false
    → (find_or_add h now m).1 ≡ new_info_hash_root P h now m.next_serial
unfolding find_or_add
find_or_add_new {P} roots h now m e = ground (
  arith,
  e,
  roots.load_or_store_lazy_actual h (λ (_ : Unit {0}). new_info_hash_root P h now m.next_serial)
      m.info_hash_map,
)
