-- ===== src/Local/Clean.antt =====
-- biz/services/peer/local/clean.go.
use trunker.Base.{
  ℕ, ◌+◌, ◌*◌, Bool, true, none, some, List, [], ◌∷◌, ◌++◌, ltb, ◌==◌, if◌then◌else◌, length, count,
}
use trunker.Base.Bytes.{Bytes}
use trunker.Config.{Config, second}
use trunker.Peer.{Peer, webtorrent, eq_type}
use trunker.Mapx.{SyncStringMap}
use trunker.Local.Root.{InfoHashRoot, range}
use trunker.Local.Root
use trunker.Local.Manager.{Effect, close_conn, is_expired}
use trunker.Local.Handlers.{Manager, put_root}

-- The callback of `root.Range` in cleanUp, on toClean and the connections closed. A connection that
-- is closed runs its callback, the task `close_callback`.
unfoldable pub sweep :
    Config → ℕ → Bytes → Peer → List Bytes × List Effect → (List Bytes × List Effect) × Bool
sweep cfg now key value (to_clean, closed) =
    if is_expired cfg now value
    then (
      (
        to_clean ++ (key ∷ []),
        elim (if eq_type value.type webtorrent then value.conn else none) [
          | none ↦ closed
          | some c ↦ closed ++ (close_conn c ∷ [])
        ],
      ),
      true,
    )
    else ((to_clean, closed), true)

module _ {P : SyncStringMap Peer} where
  unfoldable pub delete_cleaned : List Bytes → InfoHashRoot P → InfoHashRoot P
  delete_cleaned [] root = root
  delete_cleaned (key ∷ keys) root = delete_cleaned keys (Root.load_and_delete key root).0

  -- The root after `cleanUp`, the number of keys cleaned and the connections closed.
  unfoldable pub clean_root : Config → ℕ → InfoHashRoot P → InfoHashRoot P × ℕ × List Effect
  unfolding sweep delete_cleaned range
  clean_root cfg now root =
      let swept : List Bytes × List Effect = range (sweep cfg now) root ([], []) in
      if ltb now (root.last_clean + cfg.ttl * second)
      then (root, 0, [])
      else (record (delete_cleaned swept.0 root) { last_clean = now }, length swept.0, swept.1)

module _ {P : SyncStringMap Peer} {R : SyncStringMap (InfoHashRoot P)} where
  -- `cleanUp`: a root that was cleaned and holds no peer is deleted from the map.
  unfoldable pub clean_up :
      Config → ℕ → Bytes → InfoHashRoot P → Manager P R → Manager P R × ℕ × List Effect
  clean_up cfg now key root m =
      let (root', count, closed) = clean_root cfg now root in
      let kept = put_root key root' m in
      if ltb now (root.last_clean + cfg.ttl * second) then (m, 0, []) else (
        if Root.len root' == 0
            then record kept { info_hash_map = (R.delete root'.info_hash kept.info_hash_map).0 }
            else kept,
        count,
        closed,
      )

  unfoldable pub clean_entries :
      Config → ℕ → List (Bytes × InfoHashRoot P) → Manager P R → Manager P R × ℕ × List Effect
  unfolding clean_up
  clean_entries cfg now [] m = (m, 0, [])
  clean_entries cfg now ((key, root) ∷ rest) m =
      let (m', count, closed) = clean_up cfg now key root m in
      let (m'', count', closed') = clean_entries cfg now rest m' in
      (m'', count + count', closed ++ closed')

  -- `Clean`: the range visits the roots that are in the map at its start.
  unfoldable pub clean : Config → ℕ → Manager P R → Manager P R × ℕ × List Effect
  unfolding clean_entries
  clean cfg now m = clean_entries cfg now (R.entries m.info_hash_map) m
