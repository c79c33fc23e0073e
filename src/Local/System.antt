-- ===== src/Local/System.antt =====
-- The manager of one shard under any sequence of calls. A handler returns before the goroutines that
-- it started run; they run later, one at a time and in any order, and a connection may be closed at
-- any time. The calls themselves do not overlap.
mod Announced
mod Swept
pub mod Sound
use trunker.Base.{
  ℕ, zero, suc, ◌+◌, ◌-◌, ◌*◌, ◌/◌, ◌%◌, ◌^◌, ◌≤◌, ◌<◌, min, ◌≡◌, refl, sym, ap, ap₂, ◌∙◌, ◌≢◌, ◌↔◌,
  ◌⊎◌, inl, inr, Bool, true, false, not, ◌&&◌, ◌||◌, Option, none, some, List, [], ◌∷◌, ◌++◌, map,
  arith, ltb, leb, ◌==◌, if◌then◌else◌, ltb→lt, lt→ltb, leb→le, ==_iff, tests, Bool-cases,
  Option-cases, is_some, get_or_else, or_else, length, take, drop, replicate, All, filter, count,
  length-append, All-append, take-append, drop-append, length-take, length-drop, count-append,
}
use trunker.Base.Bytes.{Bytes}
use trunker.Config.{Config}
use trunker.Request.{AnnounceRequest, ScrapeFile}
use trunker.Mapx.{SyncStringMap}
use trunker.Peer.{Peer}
use trunker.Local.Root.{InfoHashRoot}
use trunker.Local.Manager.{Task, close_callback, run_task}
use trunker.Local.Handlers.{
  Manager, Pending, put_root, handle_announce_peer, ban_info_hash, delete_info_hash,
}
use trunker.Local.Scrape.{scrape}
use trunker.Local.Clean.{clean}

pub record State (P : SyncStringMap Peer) (R : SyncStringMap (InfoHashRoot P)) : Type 0 where
  pub manager : Manager P R
  pub pending : List Pending

-- `NewLocalManger`.
unfoldable pub new_local_manager :
    (P : SyncStringMap Peer) (R : SyncStringMap (InfoHashRoot P)) → Manager P R
new_local_manager P R = record { info_hash_map = R.new; next_serial = 0 }

module _ {P : SyncStringMap Peer} {R : SyncStringMap (InfoHashRoot P)} (cfg : Config) where
  -- A root that has left the map is changed by its tasks too, but nobody sees it.
  unfoldable pub run_pending : Pending → Manager P R → Manager P R
  run_pending p m = elim (R.load p.info_hash m.info_hash_map) [
    | none ↦ m
    | some root ↦
        if root.serial == p.serial then put_root p.info_hash (run_task cfg p.task root).0 m else m
  ]

  pub data Step (s : State P R) : State P R → Type 0 where
    announce :
        (now : ℕ) (req : AnnounceRequest)
        → Step s (record {
          manager = (handle_announce_peer cfg now req s.manager).manager;
          pending = s.pending ++ (handle_announce_peer cfg now req s.manager).tasks;
        })
    run :
        (before : List Pending) (p : Pending) (after : List Pending)
        → s.pending ≡ before ++ (p ∷ after)
        → Step s (record { manager = run_pending p s.manager; pending = before ++ after })
    scraped :
        (now : ℕ) (cached : Option ScrapeFile) (h : Bytes)
        → Step s (record {
          manager = (scrape cfg now cached h s.manager).manager;
          pending = s.pending ++ (scrape cfg now cached h s.manager).tasks;
        })
    cleaned :
        (now : ℕ) → Step s (record { manager = (clean cfg now s.manager).0; pending = s.pending })
    banned : (h : Bytes) → Step s (record s { manager = ban_info_hash h s.manager })
    deleted : (h : Bytes) → Step s (record s { manager = delete_info_hash h s.manager })
    closed :
        (h : Bytes) (serial : ℕ) (key : Bytes)
        → Step s (record s {
          pending =
              s.pending
              ++ (record { info_hash = h; serial = serial; task = close_callback key } ∷ []);
        })

  pub data Reach (s : State P R) : State P R → Type 0 where
    here : Reach s s
    next : {t u : State P R} → Reach s t → Step t u → Reach s u
