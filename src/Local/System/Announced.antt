-- ===== src/Local/System/Announced.antt =====
-- Announces and their goroutines keep every root of the manager sound.
use mathlib.Core.Path.{subst, subst₂}
use mathlib.Core.Option.{some-injective}
use trunker.Base.{
  ℕ, ◌≡◌, refl, sym, inl, inr, not, ◌&&◌, Option, none, some, arith, ◌==◌, if◌then◌else◌,
  Bool-cases, Option-cases, get_or_else,
}
use trunker.Base.Bytes.{Bytes, eq_bytes, eq_bytes_iff}
use trunker.Base.Equality.{bytes_eq}
use trunker.Config.{Config}
use trunker.Mapx.{SyncStringMap, IsMap}
use trunker.Peer.{Peer, get_key, is_peer_connectable}
use trunker.Peer.Event.{stopped, eq_event}
use trunker.Request.{AnnounceRequest}
use trunker.Local.Root.{InfoHashRoot, new_info_hash_root, load, range}
use trunker.Local.Root
use trunker.Local.Root.View.{load-load_or_store}
use trunker.Local.Root.Tidy.{new_info_hash_root-IsTidy, load_or_store-IsTidy}
use trunker.Local.Manager.{peer_of, respond}
use trunker.Local.Manager.Update.{
  Fits, IsSound, IsRunnable, run_task-IsSound, load_and_delete-IsSound,
}
use trunker.Local.Manager.Rotate.{rotate-IsSound}
use trunker.Local.Handlers.{
  Manager, Pending, put_root, find_or_add, first_seen, handle_announce_peer,
}
use trunker.Local.Handlers.Cases.{announce_cases, find_or_add_new}
use trunker.Local.System.{run_pending}

module _ {P : SyncStringMap Peer} {R : SyncStringMap (InfoHashRoot P)} (cfg : Config) where
  pub record AllSound (m : Manager P R) : Type 0 where
    pub sound :
        (h : Bytes) (root : InfoHashRoot P)
        → R.load h m.info_hash_map ≡ some root
        → IsSound cfg root

module _ {P : SyncStringMap Peer} {R : SyncStringMap (InfoHashRoot P)} (law : IsMap Peer P)
    (roots : IsMap (InfoHashRoot P) R) (cfg : Config) where
  pub new_info_hash_root-IsSound :
      (h : Bytes) (now n : ℕ) → IsSound cfg (new_info_hash_root P h now n)
  unfolding new_info_hash_root load
  new_info_hash_root-IsSound h now n = record {
    tidy = new_info_hash_root-IsTidy law h now n;
    fits = λ k p e. ground (arith, e, law.load-new k);
  }

  pub put_root-AllSound :
      (h : Bytes) (root : InfoHashRoot P) (m : Manager P R)
      → IsSound cfg root
      → AllSound cfg m
      → AllSound cfg (put_root h root m)
  unfolding put_root
  put_root-AllSound h root m s a = record {
    sound = λ j r e. elim (Bool-cases (eq_bytes h j)) [
      | inl same ↦
          subst (IsSound cfg)
            (some-injective _ _ (rw (roots.load-store j h root m.info_hash_map, same) at e)) s
      | inr other ↦ a.sound j r (ground (arith, roots.load-store j h root m.info_hash_map))
    ];
  }

  -- A binding of a map that holds what was there or `root`.
  bound-IsSound :
      (root : InfoHashRoot P) (m : Manager P R) (h j : Bytes) (o : Option (InfoHashRoot P))
      (r : InfoHashRoot P)
      → IsSound cfg root
      → AllSound cfg m
      → o ≡ (if eq_bytes h j then some root else R.load j m.info_hash_map)
      → o ≡ some r
      → IsSound cfg r
  bound-IsSound root m h j o r s a e l = elim (Bool-cases (eq_bytes h j)) [
    | inl same ↦ subst (IsSound cfg) (ground (arith, e, l, same)) s
    | inr other ↦ a.sound j r (ground (arith, e, l, other))
  ]

  found-IsSound :
      (h : Bytes) (fresh : InfoHashRoot P) (m : Manager P R)
      → IsSound cfg fresh
      → AllSound cfg m
      → IsSound cfg (get_or_else (R.load h m.info_hash_map) fresh)
  found-IsSound h fresh m s a = elim (Option-cases (R.load h m.info_hash_map)) [
    | inl e ↦ rw e s
    | inr (root, e) ↦ rw e (a.sound h root e)
  ]

  find_or_add-IsSound :
      (h : Bytes) (now : ℕ) (m : Manager P R)
      → AllSound cfg m
      → AllSound cfg (find_or_add h now m).0 × IsSound cfg (find_or_add h now m).1
  unfolding find_or_add
  find_or_add-IsSound h now m a =
      let fresh = new_info_hash_root P h now m.next_serial in
      let s = found-IsSound h fresh m (new_info_hash_root-IsSound h now m.next_serial) a in
      (
        record {
          sound = λ j r l.
              bound-IsSound (get_or_else (R.load h m.info_hash_map) fresh) m h j _ r s a
                (roots.load-load_or_store_lazy j h (λ _. fresh) m.info_hash_map) l;
        },
        rw (roots.load_or_store_lazy_actual h (λ _. fresh) m.info_hash_map).0 s,
      )

  -- No peer is stored in a new root yet.
  stored-IsSound :
      (k : Bytes) (p : Peer) (h : Bytes) (now n : ℕ)
      → Fits cfg k p
      → IsSound cfg (Root.load_or_store k p (new_info_hash_root P h now n)).0
  stored-IsSound k p h now n f =
      let fresh = new_info_hash_root P h now n in
      let e : load k fresh ≡ none =
        unfold new_info_hash_root load in ground (arith, law.load-new k) in
      record {
        tidy = load_or_store-IsTidy law k p fresh e (new_info_hash_root-IsTidy law h now n);
        fits = λ j q l. elim (Bool-cases (eq_bytes k j)) [
          | inl same ↦
              subst₂ (Fits cfg) ((eq_bytes_iff k j).0 same)
                (ground (arith, l, same, e, load-load_or_store law j k p fresh e)) f
          | inr other ↦
              (new_info_hash_root-IsSound h now n).fits j q
                (ground (arith, l, other, load-load_or_store law j k p fresh e))
        ];
      }

  first_seen-IsSound :
      (p : Peer) (h : Bytes) (now n : ℕ)
      → IsSound cfg (first_seen cfg p (new_info_hash_root P h now n))
  unfolding first_seen get_key
  first_seen-IsSound p h now n =
      elim (Bool-cases
        (is_peer_connectable cfg.use_announce_ip p && not (eq_event p.event stopped))) [
          | inl stores ↦ rw stores (
              stored-IsSound p.id p h now n (record {
                own_key = refl;
                connectable = ground (arith, stores);
                running = ground (arith, stores);
              }))
          | inr skips ↦ rw skips (new_info_hash_root-IsSound h now n)
        ]

  pub delete-AllSound :
      (h : Bytes) (m : Manager P R)
      → AllSound cfg m
      → AllSound cfg (record m { info_hash_map = (R.delete h m.info_hash_map).0 })
  delete-AllSound h m a = record {
    sound = λ j r l. a.sound j r (ground (arith, l, roots.load-delete j h m.info_hash_map));
  }

  pub run_pending-AllSound :
      (p : Pending) (m : Manager P R)
      → IsRunnable p.task
      → AllSound cfg m
      → AllSound cfg (run_pending cfg p m)
  unfolding run_pending
  run_pending-AllSound p m h a = elim (Option-cases (R.load p.info_hash m.info_hash_map)) [
    | inl e ↦ rw (e, run_pending) a
    | inr (root, e) ↦
        rw (e, run_pending)
          (elim (Bool-cases (root.serial == p.serial)) [
            | inl same ↦ rw same (
                put_root-AllSound p.info_hash _ m
                  (run_task-IsSound law cfg p.task root h (a.sound p.info_hash root e)) a)
            | inr other ↦ rw other a
          ])
  ]

  respond-IsSound :
      (now : ℕ) (req : AnnounceRequest) (p : Peer) (root : InfoHashRoot P)
      → IsSound cfg root
      → IsSound cfg (respond cfg now req p root).0
  respond-IsSound now req p root s = unfold respond in rotate-IsSound law cfg root s

  pub handle-AllSound :
      (now : ℕ) (req : AnnounceRequest) (m : Manager P R)
      → AllSound cfg m
      → AllSound cfg (handle_announce_peer cfg now req m).manager
  handle-AllSound now req m a =
      let peer = peer_of now req in
      let (m', root, loaded) = find_or_add req.info_hash now m in
      let found = find_or_add-IsSound req.info_hash now m a in
      announce_cases cfg now req m (λ r. AllSound cfg r.manager) (λ _. a)
        (λ _ new.
          put_root-AllSound req.info_hash _ m'
            (subst (λ r. IsSound cfg (first_seen cfg peer r))
              (sym (find_or_add_new roots req.info_hash now m new))
              (first_seen-IsSound peer req.info_hash now m.next_serial))
            found.0)
        (λ _ _ _.
          put_root-AllSound req.info_hash _ m' (load_and_delete-IsSound law cfg _ root found.1)
            found.0)
        (λ _ _ _.
          put_root-AllSound req.info_hash _ m' (respond-IsSound now req peer root found.1) found.0)
