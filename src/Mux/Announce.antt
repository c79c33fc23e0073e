-- ===== src/Mux/Announce.antt =====
-- What an announce to MuxLocalManager may change (biz/services/peer/mux_local/mux_manager.go).
use trunker.Base.{
  ℕ, zero, suc, ◌≡◌, refl, ap, ◌≢◌, ◌⊎◌, inl, inr, Bool, true, false, ◌&&◌, ◌||◌, List, [], ◌∷◌,
  arith, Bool-cases, Option-cases, is_some,
}
use trunker.Config.{Config}
use trunker.Mapx.{SyncStringMap}
use trunker.Peer.{Peer}
use trunker.Request.{AnnounceRequest}
use trunker.Ban.{ban_type_info_hash, ban_type_peer_id, test_ban, test_ip_addr, BanManager}
use trunker.Ban.IpFilter.{IpFilter}
use trunker.Ban.Item.{Bloom}
use trunker.Local.Root.{InfoHashRoot}
use trunker.Mux.{
  MuxLocalManager, Refusal, refuse, get_at, set_at, pick_worker, set_worker, handle_announce_peer,
}

pub get_at-set_at_other :
    {A : Type 0} (i j : ℕ) (y : A) (xs : List A) → i ≢ j → get_at j (set_at i y xs) ≡ get_at j xs
unfolding get_at set_at
get_at-set_at_other i j y [] h = refl
get_at-set_at_other zero zero y (x ∷ xs) h = ground (arith, h)
get_at-set_at_other zero (suc j) y (x ∷ xs) h = refl
get_at-set_at_other (suc i) zero y (x ∷ xs) h = refl
get_at-set_at_other (suc i) (suc j) y (x ∷ xs) h = get_at-set_at_other i j y xs (λ e. h (ap suc e))

-- Whether a request is banned by its info hash, its peer id or its address.
abbrev pub is_banned : {B : Bloom} {F : IpFilter} → AnnounceRequest → BanManager B F → Bool
is_banned req b =
    test_ban ban_type_info_hash req.info_hash b
    || (test_ban ban_type_peer_id req.peer_id b
        || (is_some req.client_ip && test_ip_addr req.client_ip b))

abbrev pub is_refused : {A : Type 0} → A ⊎ Refusal → Bool
is_refused (inl a) = false
is_refused (inr why) = true

module _ {P : SyncStringMap Peer} {R : SyncStringMap (InfoHashRoot P)} {B : Bloom} {F : IpFilter}
    (uint64 : ℕ → ℕ) (cfg : Config) (now : ℕ) (req : AnnounceRequest)
    (m : MuxLocalManager P R B F) where
  -- An announce that is banned by its info hash, its peer id or the client's address is refused, and
  -- changes nothing: no manager, no ban, no goroutine, no event.
  pub handle_announce_peer_banned :
      is_banned req m.ban ≡ true
      → let r = handle_announce_peer uint64 cfg now req m in
        (r.manager ≡ m) × (r.tasks ≡ []) × (r.effects ≡ []) × (is_refused r.result ≡ true)
  unfolding handle_announce_peer
  handle_announce_peer_banned h =
      elim (Bool-cases (test_ban ban_type_info_hash req.info_hash m.ban)) [
        | inl a ↦ rw a (refl, refl, refl, refl)
        | inr a ↦ elim (Bool-cases (test_ban ban_type_peer_id req.peer_id m.ban)) [
          | inl b ↦ rw (a, b) (refl, refl, refl, refl)
          | inr b ↦
              let c : (is_some req.client_ip && test_ip_addr req.client_ip m.ban) ≡ true =
                rw (a, b) at h in
              rw (a, b, c) (refl, refl, refl, refl)
        ]
      ]

  -- An announce changes no other shard than that of its info hash, and no ban; and the tasks that it
  -- returns, if there are any, are for that shard.
  pub handle_announce_peer_others :
      (j : ℕ)
      → pick_worker uint64 req.info_hash m ≢ j
      → let r = handle_announce_peer uint64 cfg now req m in
        (get_at j r.manager.local_list ≡ get_at j m.local_list)
        × (r.manager.ban ≡ m.ban)
        × ((r.shard ≡ pick_worker uint64 req.info_hash m) ⊎ (r.tasks ≡ []))
  unfolding handle_announce_peer pick_worker set_worker refuse
  handle_announce_peer_others j h =
      elim (Bool-cases (test_ban ban_type_info_hash req.info_hash m.ban)) [
        | inl a ↦ rw a (refl, refl, inr refl)
        | inr a ↦ elim (Bool-cases (test_ban ban_type_peer_id req.peer_id m.ban)) [
          | inl b ↦ rw (a, b) (refl, refl, inr refl)
          | inr b ↦ elim (Bool-cases (is_some req.client_ip && test_ip_addr req.client_ip m.ban)) [
            | inl c ↦ rw (a, b, c) (refl, refl, inr refl)
            | inr c ↦
                elim (Option-cases (get_at (pick_worker uint64 req.info_hash m) m.local_list)) [
                  | inl e ↦ rw (a, b, c, e) (refl, refl, inr refl)
                  | inr (w, e) ↦
                      rw (a, b, c, e) (get_at-set_at_other _ j _ m.local_list h, refl, inl refl)
                ]
          ]
        ]
      ]
