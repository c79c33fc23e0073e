-- ===== src/Local/Root.antt =====
-- biz/services/peer/local/local.go: InfoHashRoot, the peers of one torrent in three maps.

pub mod View
pub mod Tidy
use trunker.Base.{
  ℕ, ◌+◌, Bool, true, Option, none, some, List, [], ◌∷◌, ltb, ◌==◌, if◌then◌else◌, or_else,
}
use trunker.Base.Bytes.{Bytes}
use trunker.Mapx.{SyncStringMap}
use trunker.Peer.{Peer}

-- `peer_map0`, `peer_map1` and `peer_map2` are the array peerMap. Go compares roots by their
-- addresses: `serial` stands for the address, and no two roots have one.
pub record InfoHashRoot (P : SyncStringMap Peer) : Type 0 where
  pub peer_map0 : P.Map
  pub peer_map1 : P.Map
  pub peer_map2 : P.Map
  pub last_clean : ℕ
  pub info_hash : Bytes
  pub current_active : ℕ
  pub serial : ℕ

-- One round of the loop of LoadAndDelete: the peer seen last wins, the first one among equals.
unfoldable pub newer : Option Peer → Option Peer → Option Peer
newer found none = found
newer none (some v) = some v
newer (some p) (some v) = if ltb p.last_seen v.last_seen then some v else some p

-- `Range` on one map: the callback says whether to go on.
unfoldable pub visit {ℓ} :
    {S : Type ℓ} → (Bytes → Peer → S → S × Bool) → List (Bytes × Peer) → S → S
visit f [] s = s
visit f ((key, value) ∷ rest) s =
    let (s', more) = f key value s in let end = visit f rest s' in if more then end else s'

module _ (P : SyncStringMap Peer) where
  unfoldable pub new_info_hash_root : Bytes → ℕ → ℕ → InfoHashRoot P
  new_info_hash_root info_hash now serial = record {
    peer_map0 = P.new;
    peer_map1 = P.new;
    peer_map2 = P.new;
    last_clean = now;
    info_hash = info_hash;
    current_active = 0;
    serial = serial;
  }

module _ {P : SyncStringMap Peer} where
  -- `i.peerMap[n]`, and an assignment to it, for n < 3.
  unfoldable pub get_map : ℕ → InfoHashRoot P → P.Map
  get_map n r = if n == 0 then r.peer_map0 else if n == 1 then r.peer_map1 else r.peer_map2

  unfoldable pub set_map : ℕ → P.Map → InfoHashRoot P → InfoHashRoot P
  set_map n m r =
      if n == 0
      then record r { peer_map0 = m }
      else if n == 1
      then record r { peer_map1 = m }
      else record r { peer_map2 = m }

  unfoldable pub load : Bytes → InfoHashRoot P → Option Peer
  load key r =
      or_else (P.load key r.peer_map0) (or_else (P.load key r.peer_map1) (P.load key r.peer_map2))

  unfoldable pub load_and_delete : Bytes → InfoHashRoot P → InfoHashRoot P × Option Peer
  unfolding newer
  load_and_delete key r =
      let (m0, v0) = P.load_and_delete key r.peer_map0 in
      let (m1, v1) = P.load_and_delete key r.peer_map1 in
      let (m2, v2) = P.load_and_delete key r.peer_map2 in
      (
        record r { peer_map0 = m0; peer_map1 = m1; peer_map2 = m2 },
        newer (newer (newer none v0) v1) v2,
      )

  -- `result || peerMap.Delete(key)` deletes from the maps up to the first that has the key.
  unfoldable pub delete : Bytes → InfoHashRoot P → InfoHashRoot P × Bool
  delete key r =
      let d0 = P.delete key r.peer_map0 in
      let d1 = P.delete key r.peer_map1 in
      let d2 = P.delete key r.peer_map2 in
      if d0.1
      then (record r { peer_map0 = d0.0 }, true)
      else if d1.1
      then (record r { peer_map0 = d0.0; peer_map1 = d1.0 }, true)
      else (record r { peer_map0 = d0.0; peer_map1 = d1.0; peer_map2 = d2.0 }, d2.1)

  unfoldable pub load_or_store : Bytes → Peer → InfoHashRoot P → InfoHashRoot P × Peer × Bool
  unfolding get_map set_map
  load_or_store key peer r =
      let (m, actual, loaded) = P.load_or_store key peer (get_map r.current_active r) in
      (set_map r.current_active m r, actual, loaded)

  unfoldable pub store : Bytes → Peer → InfoHashRoot P → InfoHashRoot P
  unfolding get_map set_map
  store key peer r = set_map r.current_active (P.store key peer (get_map r.current_active r)) r

  unfoldable pub len : InfoHashRoot P → ℕ
  len r = P.len r.peer_map0 + P.len r.peer_map1 + P.len r.peer_map2

  -- A callback that stops ends the visit of its map alone.
  unfoldable pub range {ℓ} : {S : Type ℓ} → (Bytes → Peer → S → S × Bool) → InfoHashRoot P → S → S
  unfolding visit
  range f r s =
      visit f (P.entries r.peer_map2)
        (visit f (P.entries r.peer_map1) (visit f (P.entries r.peer_map0) s))
