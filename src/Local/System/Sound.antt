-- ===== src/Local/System/Sound.antt =====
-- Whatever the calls and the order of their goroutines, every root of the manager stays sound.
use mathlib.Core.Path.{subst}
use trunker.Base.{
  ℕ, ◌≡◌, refl, sym, inl, inr, Option, none, some, List, [], ◌∷◌, ◌++◌, arith, ltb, if◌then◌else◌,
  Bool-cases, Option-cases, length, All, All-append,
}
use trunker.Base.Bytes.{Bytes}
use trunker.Base.Equality.{bytes_eq}
use trunker.Config.{Config}
use trunker.Mapx.{SyncStringMap, IsMap}
use trunker.Peer.{Peer}
use trunker.Request.{AnnounceRequest, ScrapeFile}
use trunker.Local.Root.{InfoHashRoot, range}
use trunker.Local.Manager.{Task, respond, pick}
use trunker.Local.Manager.Update.{IsSound, IsRunnable}
use trunker.Local.Handlers.{
  Manager, Pending, pend, handle_announce_peer, ban_info_hash, delete_info_hash,
}
use trunker.Local.Handlers.Cases.{announce_cases}
use trunker.Local.Scrape.{scrape, tally, no_peers}
use trunker.Local.System.{
  State, new_local_manager, Step, announce, run, scraped, cleaned, banned, deleted, closed, Reach,
  here, next,
}
use trunker.Local.System.Announced.{
  AllSound, handle-AllSound, run_pending-AllSound, delete-AllSound,
}
use trunker.Local.System.Swept.{clean-AllSound}

module _ {P : SyncStringMap Peer} {R : SyncStringMap (InfoHashRoot P)} (law : IsMap Peer P)
    (roots : IsMap (InfoHashRoot P) R) (cfg : Config) where
  All-append_cons :
      (before : List Pending) (p : Pending) (after : List Pending)
      → All (λ q. IsRunnable q.task) (before ++ (p ∷ after))
      → IsRunnable p.task × All (λ q. IsRunnable q.task) (before ++ after)
  All-append_cons [] p after a = a
  All-append_cons (q ∷ qs) p after (r, a) = let (x, y) = All-append_cons qs p after a in (x, (r, y))

  -- The invariant of the whole shard: its roots are sound, and no pending task stores a peer that
  -- has stopped.
  pub record Inv (s : State P R) : Type 0 where
    pub all : AllSound cfg s.manager
    pub runnable : All (λ p. IsRunnable p.task) s.pending

  pend-IsRunnable :
      (h : Bytes) (n : ℕ) (ts : List Task)
      → All IsRunnable ts
      → All (λ p. IsRunnable p.task) (pend h n ts)
  pend-IsRunnable h n [] a = tt
  pend-IsRunnable h n (t ∷ ts) (r, a) = (r, pend-IsRunnable h n ts a)

  respond-IsRunnable :
      (now : ℕ) (req : AnnounceRequest) (p : Peer) (root : InfoHashRoot P)
      → All IsRunnable (respond cfg now req p root).2
  unfolding respond
  respond-IsRunnable now req p root =
      elim (Bool-cases (
        ltb 0 (length (range {S = List Bytes × List Peer} (pick cfg now req p) root ([], [])).0))) [
          | inl e ↦ rw e (tt, tt)
          | inr e ↦ rw e tt
        ]

  scrape-Inv :
      (now : ℕ) (cached : Option ScrapeFile) (h : Bytes) (m : Manager P R)
      → ((scrape cfg now cached h m).manager ≡ m)
        × All (λ p. IsRunnable p.task) (scrape cfg now cached h m).tasks
  unfolding scrape
  scrape-Inv now cached h m = elim (Option-cases (R.load h m.info_hash_map)) [
    | inl e ↦ rw (e, scrape) (refl, tt)
    | inr (root, e) ↦
        rw (e, scrape)
          (elim (Option-cases (if cfg.cache_enable then cached else none)) [
            | inr (v, hit) ↦ rw (hit, scrape) (refl, tt)
            | inl miss ↦
                rw (miss, scrape)
                  (
                    refl,
                    elim (Bool-cases
                        (ltb 0 (length (range (tally cfg now) root no_peers).expired_peer))) [
                          | inl some_expired ↦ rw some_expired (tt, tt)
                          | inr none_expired ↦ rw none_expired tt
                        ],
                  )
          ])
  ]

  tasks-IsRunnable :
      (now : ℕ) (req : AnnounceRequest) (m : Manager P R)
      → All (λ p. IsRunnable p.task) (handle_announce_peer cfg now req m).tasks
  tasks-IsRunnable now req m =
      announce_cases cfg now req m (λ r. All (λ p. IsRunnable p.task) r.tasks) (λ _. tt) (λ _ _. tt)
        (λ _ _ _. tt)
        (λ _ _ running.
          (running, pend-IsRunnable req.info_hash _ _ (respond-IsRunnable now req _ _)))

  Step-Inv : {s t : State P R} → Step cfg s t → Inv s → Inv t
  Step-Inv {s} (announce now req) v = record {
    all = handle-AllSound law roots cfg now req s.manager v.all;
    runnable = All-append _ s.pending _ v.runnable (tasks-IsRunnable now req s.manager);
  }
  Step-Inv {s} (run before p after e) v = record {
    all =
        run_pending-AllSound law roots cfg p s.manager
          (All-append_cons before p after (rw e at v.runnable)).0 v.all;
    runnable = (All-append_cons before p after (rw e at v.runnable)).1;
  }
  Step-Inv {s} (scraped now cached h) v = record {
    all = subst (AllSound cfg) (sym (scrape-Inv now cached h s.manager).0) v.all;
    runnable = All-append _ s.pending _ v.runnable (scrape-Inv now cached h s.manager).1;
  }
  Step-Inv {s} (cleaned now) v = record {
    all = clean-AllSound law roots cfg now s.manager v.all;
    runnable = v.runnable;
  }
  Step-Inv {s} (banned h) v =
      unfold ban_info_hash in
      record { all = delete-AllSound law roots cfg h s.manager v.all; runnable = v.runnable }
  Step-Inv {s} (deleted h) v =
      unfold delete_info_hash in
      record { all = delete-AllSound law roots cfg h s.manager v.all; runnable = v.runnable }
  Step-Inv {s} (closed h n k) v = record {
    all = v.all;
    runnable = All-append _ s.pending _ v.runnable (tt, tt);
  }

  init-Inv : Inv (record { manager = new_local_manager P R; pending = [] })
  unfolding new_local_manager
  init-Inv = record {
    all = record { sound = λ h r e. ground (arith, e, roots.load-new h) };
    runnable = tt;
  }

  Reach-Inv : {s t : State P R} → Inv s → Reach cfg s t → Inv t
  Reach-Inv v here = v
  Reach-Inv v (next r st) = Step-Inv st (Reach-Inv v r)

  -- From an empty manager, whatever announces, scrapes, cleanings, bans and deletions are made,
  -- whenever their goroutines run and connections close: in each root no peer id is in two of its
  -- maps, the map that is written to next is empty, and each peer stands under its own id, can be
  -- connected to and has not stopped.
  pub Reach-IsSound :
      (s : State P R)
      → Reach cfg (record { manager = new_local_manager P R; pending = [] }) s
      → (h : Bytes) (root : InfoHashRoot P) → R.load h s.manager.info_hash_map ≡ some root
      → IsSound cfg root
  Reach-IsSound s r h root e = (Reach-Inv init-Inv r).all.sound h root e
