-- ===== src/Local/Manager/Update.antt =====
-- What the goroutines of a handler do to a root (`run_task` of `Local.Manager`), and `rotate`.
use trunker.Base.{
  ◌≡◌, refl, ◌⊎◌, inl, inr, true, false, Option, none, some, List, [], ◌∷◌, arith, if◌then◌else◌,
  Bool-cases, Option-cases,
}
use trunker.Base.Bytes.{Bytes, eq_bytes, eq_bytes_iff, eq_bytes_refl}
use trunker.Config.{Config}
use mathlib.Core.Path.{subst}
use mathlib.Core.Option.{some-injective}
use trunker.Mapx.{SyncStringMap, IsMap}
use trunker.Peer.{Peer, get_key, is_peer_connectable}
use trunker.Peer.Event.{stopped, eq_event}
use trunker.Local.Root.{InfoHashRoot, get_map, set_map, load}
use trunker.Local.Root
use trunker.Local.Root.View.{
  IsTidy, load-load_and_delete, load_and_delete_found, load-delete, load-store, load-load_or_store,
}
use trunker.Local.Root.Tidy.{
  load_and_delete-IsTidy, delete-IsTidy, store-IsTidy, load_or_store-IsTidy,
}
use trunker.Local.Manager.{
  Task, update_peer, delete_keys, close_callback, refresh, update, delete_all, run_task,
}

-- A peer that may be stored under `k`: it has that id, can be reached and has not stopped.
pub record Fits (cfg : Config) (k : Bytes) (p : Peer) : Type 0 where
  pub own_key : p.id ≡ k
  pub connectable : is_peer_connectable cfg.use_announce_ip p ≡ true
  pub running : eq_event p.event stopped ≡ false

pub record IsSound {P : SyncStringMap Peer} (cfg : Config) (r : InfoHashRoot P) : Type 0 where
  pub tidy : IsTidy r
  pub fits : (k : Bytes) (p : Peer) → load k r ≡ some p → Fits cfg k p

pub refresh-Fits :
    (cfg : Config) (k : Bytes) (p q : Peer)
    → Fits cfg k p
    → eq_event q.event stopped ≡ false
    → Fits cfg k (refresh p q)
unfolding refresh is_peer_connectable
refresh-Fits cfg k p q f h = record {
  own_key = f.own_key;
  connectable = f.connectable;
  running = h;
}

-- The record under the key of an announced peer after its goroutine, from the one before.
unfoldable pub updated : Config → Peer → Option Peer → Option Peer
updated cfg peer (some known) = some (record known {
  uploaded = peer.uploaded;
  downloaded = peer.downloaded;
  left = peer.left;
  event = peer.event;
  last_seen = peer.last_seen;
})
updated cfg peer none = if is_peer_connectable cfg.use_announce_ip peer then some peer else none

-- The peers that a task stores have not stopped.
abbrev pub IsRunnable : Task → Type 0
IsRunnable (update_peer p) = eq_event p.event stopped ≡ false
IsRunnable _ = Unit {0}

module _ {P : SyncStringMap Peer} (law : IsMap Peer P) (cfg : Config) where
  -- On a sound root `update` writes the record under the peer's own key alone: a known peer takes the
  -- uploaded, downloaded and left bytes, the event and the time of the announced one and keeps its
  -- other fields, and a new one is stored if it can be reached.
  pub load-update :
      (j : Bytes) (peer : Peer) (r : InfoHashRoot P)
      → IsSound cfg r
      → load j (update cfg peer r).0
        ≡ (if eq_bytes peer.id j then updated cfg peer (load peer.id r) else load j r)
  unfolding update updated get_key refresh
  load-update j peer r s = elim (Option-cases (load peer.id r)) [
    | inl e ↦ ground (
      arith,
      e,
      gone,
      found,
      load-load_and_delete law j peer.id r,
      load-load_or_store law j peer.id peer (Root.load_and_delete peer.id r).0,
    )
    | inr (p, e) ↦ ground (
      arith,
      e,
      gone,
      found,
      (s.fits peer.id p e).own_key,
      load-load_and_delete law j peer.id r,
      load-store law j peer.id (refresh p peer) (Root.load_and_delete peer.id r).0,
    )
  ]
    where
      gone : load peer.id (Root.load_and_delete peer.id r).0 ≡ none
      gone = rw (load-load_and_delete law peer.id peer.id r, eq_bytes_refl peer.id)

      found : (Root.load_and_delete peer.id r).1 ≡ load peer.id r
      found = load_and_delete_found law peer.id r s.tidy

  update-IsTidy : (peer : Peer) (r : InfoHashRoot P) → IsSound cfg r → IsTidy (update cfg peer r).0
  unfolding update get_key
  update-IsTidy peer r s = elim (Option-cases (load peer.id r)) [
    | inl e ↦ ground (
      arith,
      e,
      gone,
      found,
      emptied,
      load_or_store-IsTidy law peer.id peer (Root.load_and_delete peer.id r).0 gone emptied,
    )
    | inr (p, e) ↦ ground (
      arith,
      e,
      gone,
      found,
      (s.fits peer.id p e).own_key,
      store-IsTidy law peer.id (refresh p peer) (Root.load_and_delete peer.id r).0 gone emptied,
    )
  ]
    where
      gone : load peer.id (Root.load_and_delete peer.id r).0 ≡ none
      gone = rw (load-load_and_delete law peer.id peer.id r, eq_bytes_refl peer.id)

      found : (Root.load_and_delete peer.id r).1 ≡ load peer.id r
      found = load_and_delete_found law peer.id r s.tidy

      emptied : IsTidy (Root.load_and_delete peer.id r).0
      emptied = load_and_delete-IsTidy law peer.id r s.tidy

  updated-Fits :
      (peer : Peer) (o : Option Peer) (p : Peer)
      → eq_event peer.event stopped ≡ false
      → ((q : Peer) → o ≡ some q → Fits cfg peer.id q)
      → updated cfg peer o ≡ some p
      → Fits cfg peer.id p
  unfolding updated refresh
  updated-Fits peer (some q) p running known e =
      subst (Fits cfg peer.id) (some-injective _ _ e)
        (refresh-Fits cfg peer.id q peer (known q refl) running)
  updated-Fits peer none p running known e = ground arith

  -- The goroutine of a peer that has not stopped keeps a root sound.
  pub update-IsSound :
      (peer : Peer) (r : InfoHashRoot P)
      → eq_event peer.event stopped ≡ false
      → IsSound cfg r
      → IsSound cfg (update cfg peer r).0
  update-IsSound peer r running s = record {
    tidy = update-IsTidy peer r s;
    fits = λ k p h. elim (Bool-cases (eq_bytes peer.id k)) [
      | inl same ↦
          subst (λ i. Fits cfg i p) ((eq_bytes_iff peer.id k).0 same)
            (updated-Fits peer (load peer.id r) p running (s.fits peer.id)
              (ground (arith, same, h, load-update k peer r s)))
      | inr other ↦ s.fits k p (ground (arith, other, h, load-update k peer r s))
    ];
  }

  -- A root with fewer records is sound.
  pub sub-IsSound :
      {r s : InfoHashRoot P}
      → IsSound cfg r
      → IsTidy s
      → ((k : Bytes) → (load k s ≡ none) ⊎ (load k s ≡ load k r))
      → IsSound cfg s
  sub-IsSound {r} {s} h t sub = record {
    tidy = t;
    fits = λ k p e. h.fits k p (ground (arith, e, sub k));
  }

  pub load_and_delete-IsSound :
      (k : Bytes) (r : InfoHashRoot P) → IsSound cfg r → IsSound cfg (Root.load_and_delete k r).0
  load_and_delete-IsSound k r s =
      sub-IsSound s (load_and_delete-IsTidy law k r s.tidy)
        λ j. ground (arith, load-load_and_delete law j k r)

  delete-IsSound :
      (k : Bytes) (r : InfoHashRoot P) → IsSound cfg r → IsSound cfg (Root.delete k r).0
  delete-IsSound k r s =
      sub-IsSound s (delete-IsTidy law k r s.tidy) λ j. ground (arith, load-delete law j k r s.tidy)

  delete_all-IsSound :
      (ks : List Bytes) (r : InfoHashRoot P) → IsSound cfg r → IsSound cfg (delete_all ks r)
  unfolding delete_all
  delete_all-IsSound [] r s = s
  delete_all-IsSound (k ∷ ks) r s = delete_all-IsSound ks _ (delete-IsSound k r s)

  pub run_task-IsSound :
      (t : Task) (r : InfoHashRoot P)
      → IsRunnable t
      → IsSound cfg r
      → IsSound cfg (run_task cfg t r).0
  unfolding run_task
  run_task-IsSound (update_peer p) r h s = update-IsSound p r h s
  run_task-IsSound (delete_keys ks) r h s = delete_all-IsSound ks r s
  run_task-IsSound (close_callback k) r h s = load_and_delete-IsSound k r s
