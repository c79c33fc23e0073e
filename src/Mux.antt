-- ===== src/Mux.antt =====
-- biz/services/peer/mux_local/mux_manager.go: the torrents, spread over the managers of `Local` by
-- their info hash, behind the lists of bans. The snapshots of persist.go and GetIPFilterStats are not
-- modelled.
pub mod Admin
pub mod Announce
mod Tests
use trunker.Base.{
  ℕ, zero, suc, ◌+◌, ◌-◌, ◌*◌, ◌/◌, ◌%◌, ◌^◌, ◌≤◌, ◌<◌, min, ◌≡◌, refl, sym, ap, ap₂, ◌∙◌, ◌≢◌, ◌↔◌,
  ◌⊎◌, inl, inr, Bool, true, false, not, ◌&&◌, ◌||◌, Option, none, some, List, [], ◌∷◌, ◌++◌, map,
  arith, ltb, leb, ◌==◌, if◌then◌else◌, ltb→lt, lt→ltb, leb→le, ==_iff, tests, Bool-cases,
  Option-cases, is_some, get_or_else, or_else, length, take, drop, replicate, All, filter, count,
  length-append, All-append, take-append, drop-append, filter_skip, filter_add, length-take,
  length-drop, count-append,
}
use trunker.Base.Bytes.{Bytes, get_be}
use trunker.Config.{Config}
use trunker.Mapx.{SyncStringMap}
use trunker.Peer.{Peer}
use trunker.Request.{AnnounceRequest, ScrapeFile}
use trunker.Ban.{
  BanManager, new_ban_manager, ban_type_info_hash, ban_type_peer_id, add_ban, test_ban, clear_ban,
  add_ip_ban, remove_ip_ban, test_ip_addr, clear_ip_bans,
}
use trunker.Ban.IpFilter.{IpFilter}
use trunker.Ban.Item.{Bloom, BanFile, Io}
use trunker.Local.Root.{InfoHashRoot}
use trunker.Local.Manager.{Error, Result, ok, err, Effect}
use trunker.Local.Handlers.{Manager, Pending, Reply}
use trunker.Local.Handlers
use trunker.Local.Scrape.{Statistic, get_statistic}
use trunker.Local.Scrape
use trunker.Local.Clean.{clean}
use trunker.Local.System.{new_local_manager}

-- `list[i]`, none out of range, and an assignment to it.
unfoldable pub get_at {ℓ} : {A : Type ℓ} → ℕ → List A → Option A
get_at n [] = none
get_at zero (x ∷ xs) = some x
get_at (suc n) (x ∷ xs) = get_at n xs

unfoldable pub set_at {ℓ} : {A : Type ℓ} → ℕ → A → List A → List A
set_at n y [] = []
set_at zero y (x ∷ xs) = y ∷ xs
set_at (suc n) y (x ∷ xs) = x ∷ set_at n y xs

-- What HandleAnnouncePeer refuses by itself, and the error of the shard. `panic` is the end of a
-- server that was made with no shard.
pub data Refusal : Type 0 where
  banned_info_hash banned_peer_id banned_ip panic : Refusal
  shard_error : Error → Refusal

pub record MuxLocalManager (P : SyncStringMap Peer) (R : SyncStringMap (InfoHashRoot P)) (B : Bloom)
    (F : IpFilter) : Type 0 where
  pub local_list : List (Manager P R)
  pub ban : BanManager B F

-- The answer of a call, with the tasks of the shard numbered `shard`.
pub record MuxReply (P : SyncStringMap Peer) (R : SyncStringMap (InfoHashRoot P)) (B : Bloom)
    (F : IpFilter) (A : Type 0) : Type 0 where
  pub manager : MuxLocalManager P R B F
  pub result : A ⊎ Refusal
  pub shard : ℕ
  pub tasks : List Pending
  pub effects : List Effect

-- `NewMuxLocalManager`, from the filter that NewIPFilter makes and the files of bans.
unfoldable pub new_mux_local_manager :
    (P : SyncStringMap Peer) (R : SyncStringMap (InfoHashRoot P)) (B : Bloom) (F : IpFilter)
    → ℕ
    → F.Filter
    → BanFile
    → BanFile
    → MuxLocalManager P R B F
unfolding new_local_manager new_ban_manager
new_mux_local_manager P R B F num filter info_hashes peer_ids = record {
  local_list = replicate num (new_local_manager P R);
  ban = new_ban_manager filter info_hashes peer_ids;
}

abbrev pub result_of : {A : Type 0} → Result A → A ⊎ Refusal
result_of (ok a) = inl a
result_of (err e) = inr (shard_error e)

-- `uint64` is the method Uint64 of big.Int, whose result is documented below 2 ^ 64 only: an info
-- hash has 160 bits.
module _ {P : SyncStringMap Peer} {R : SyncStringMap (InfoHashRoot P)} {B : Bloom} {F : IpFilter}
    (uint64 : ℕ → ℕ) where
  -- The number of the shard.
  unfoldable pub pick_worker : Bytes → MuxLocalManager P R B F → ℕ
  unfolding get_be
  pick_worker hash_bytes m = uint64 (get_be hash_bytes) % length m.local_list

  unfoldable pub refuse : Refusal → MuxLocalManager P R B F → {A : Type 0} → MuxReply P R B F A
  refuse why m = record { manager = m; result = inr why; shard = 0; tasks = []; effects = [] }

  unfoldable pub set_worker : ℕ → Manager P R → MuxLocalManager P R B F → MuxLocalManager P R B F
  unfolding set_at
  set_worker i w m = record m { local_list = set_at i w m.local_list }

  unfoldable pub handle_announce_peer :
      Config → ℕ → AnnounceRequest → MuxLocalManager P R B F → MuxReply P R B F (List Peer)
  unfolding pick_worker refuse set_worker get_at
  handle_announce_peer cfg now req m =
      let i = pick_worker req.info_hash m in
      if test_ban ban_type_info_hash req.info_hash m.ban
      then refuse banned_info_hash m
      else if test_ban ban_type_peer_id req.peer_id m.ban
      then refuse banned_peer_id m
      else if is_some req.client_ip && test_ip_addr req.client_ip m.ban
      then refuse banned_ip m
      else elim (get_at i m.local_list) [
        | none ↦ refuse panic m
        | some worker ↦
            let r = Handlers.handle_announce_peer cfg now req worker in
            record {
              manager = set_worker i r.manager m;
              result = result_of r.result;
              shard = i;
              tasks = r.tasks;
              effects = r.effects;
            }
      ]

  unfoldable pub scrape :
      Config → ℕ → Option ScrapeFile → Bytes → MuxLocalManager P R B F → MuxReply P R B F ScrapeFile
  unfolding pick_worker refuse set_worker get_at
  scrape cfg now cached info_hash m =
      let i = pick_worker info_hash m in
      elim (get_at i m.local_list) [
        | none ↦ refuse panic m
        | some worker ↦
            let r = Scrape.scrape cfg now cached info_hash worker in
            record {
              manager = set_worker i r.manager m;
              result = inl r.result;
              shard = i;
              tasks = r.tasks;
              effects = r.effects;
            }
      ]

  -- The manager after the call, and the error of writing the ban.
  unfoldable pub ban_info_hash :
      Io → Bytes → MuxLocalManager P R B F → MuxLocalManager P R B F × Option Bytes
  unfolding pick_worker set_worker get_at
  ban_info_hash io info_hash m =
      let i = pick_worker info_hash m in
      let (ban, error) = add_ban ban_type_info_hash io info_hash m.ban in
      let m' : MuxLocalManager P R B F = record m { ban = ban } in
      elim error [
        | some e ↦ (m', some e)
        | none ↦ elim (get_at i m.local_list) [
          | none ↦ (m', none)
          | some worker ↦ (set_worker i (Handlers.ban_info_hash info_hash worker) m', none)
        ]
      ]

  unfoldable pub delete_info_hash : Bytes → MuxLocalManager P R B F → MuxLocalManager P R B F
  unfolding pick_worker set_worker get_at
  delete_info_hash info_hash m =
      let i = pick_worker info_hash m in
      elim (get_at i m.local_list) [
        | none ↦ m
        | some worker ↦ set_worker i (Handlers.delete_info_hash info_hash worker) m
      ]

  unfoldable pub get_peers : Bytes → MuxLocalManager P R B F → List Peer
  unfolding pick_worker get_at
  get_peers info_hash m = elim (get_at (pick_worker info_hash m) m.local_list) [
    | none ↦ []
    | some worker ↦ Handlers.get_peers info_hash worker
  ]
