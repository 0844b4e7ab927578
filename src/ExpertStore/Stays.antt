-- ===== src/ExpertStore/Stays.antt =====
-- expert/expert_store.cpp: the entries that are pinned, while both threads work.
use desiree_ia.Prelude.{ℕ, List, [], ◌∷◌, Option-cases, Bool-cases, inl, inr}
use desiree_ia.HybridTier.{Floats, number_key}
use desiree_ia.HybridTier.Lru.{find}
use desiree_ia.HybridTier.Keys.{make_key}
use desiree_ia.ExpertStore.{Store, load_data, keep}
use desiree_ia.ExpertStore.Threads.{
  Caller, idle, missed, loaded, Worker, waiting, stopped, checking, loading, inserting, System,
  call, go_on, work, Event, fetches, goes_on, works, stops, prefetches, enter, happen, run,
}
use desiree_ia.ExpertStore.Pinned.{HasPinned, found-HasPinned, insert_locked-HasPinned}

module _ (key : ℕ) (content : Floats) where
  keep-HasPinned :
      (s : Store) (j : ℕ) (d : Floats)
      → HasPinned key content s.order
      → HasPinned key content (keep s j d).0.order
  unfolding keep
  keep-HasPinned s j d h = elim (Option-cases (find j s.order)) [
    | inr (x, f) ↦ rw (f, keep) h
    | inl f ↦ rw (f, keep) (insert_locked-HasPinned key content s j d h)
  ]

  call-HasPinned :
      (j : ℕ) (sys : System)
      → HasPinned key content sys.store.order
      → HasPinned key content (call j sys).store.order
  unfolding call
  call-HasPinned j sys h = elim (Option-cases (find j sys.store.order)) [
    | inr (x, f) ↦ rw (f, call) (found-HasPinned key content sys.store j x f h)
    | inl f ↦ rw (f, call) h
  ]

  enter-HasPinned :
      (c : Caller) (j : ℕ) (sys : System)
      → HasPinned key content sys.store.order
      → HasPinned key content (enter c j sys).store.order
  unfolding enter
  enter-HasPinned idle j sys h = call-HasPinned j sys h
  enter-HasPinned (missed k) j sys h = h
  enter-HasPinned (loaded k d) j sys h = h

  go_on-HasPinned :
      (c : Caller) (sys : System)
      → HasPinned key content sys.store.order
      → HasPinned key content (go_on (record sys { caller = c })).store.order
  unfolding go_on
  go_on-HasPinned idle sys h = h
  go_on-HasPinned (missed j) sys h = elim (Option-cases (load_data sys.store.sources j)) [
    | inl e ↦ rw (e, go_on) h
    | inr (d, e) ↦ rw (e, go_on) h
  ]
  go_on-HasPinned (loaded j d) sys h = keep-HasPinned sys.store j d h

  work-HasPinned :
      (w : Worker) (sys : System)
      → HasPinned key content sys.store.order
      → HasPinned key content (work (record sys { worker = w })).store.order
  unfolding work
  work-HasPinned waiting sys h = elim (Bool-cases sys.worker_stop) [
    | inl b ↦ rw (b, work) h
    | inr b ↦ elim (Option-cases sys.pending) [
      | inl n ↦ rw (b, n, work) h
      | inr ((layer, idxs), n) ↦ rw (b, n, work) h
    ]
  ]
  work-HasPinned stopped sys h = h
  work-HasPinned (checking p) sys h = h
  work-HasPinned (loading j p) sys h = elim (Option-cases (load_data sys.store.sources j)) [
    | inl e ↦ rw (e, work) h
    | inr (d, e) ↦ rw (e, work) h
  ]
  work-HasPinned (inserting j d p) sys h = insert_locked-HasPinned key content sys.store j d h

  happen-HasPinned :
      (e : Event) (sys : System)
      → HasPinned key content sys.store.order
      → HasPinned key content (happen e sys).store.order
  unfolding happen
  happen-HasPinned (fetches layer idx part) sys h =
      enter-HasPinned sys.caller (make_key layer idx part) sys h
  happen-HasPinned goes_on sys h = go_on-HasPinned sys.caller sys h
  happen-HasPinned works sys h = work-HasPinned sys.worker sys h
  happen-HasPinned stops sys h = h
  happen-HasPinned (prefetches layer idxs) sys h = h

-- A pinned entry stays, pinned and with its content, whatever the two threads do afterwards.
pub run-HasPinned :
    (key : ℕ) (content : Floats) (events : List Event) (sys : System)
    → HasPinned key content sys.store.order
    → HasPinned key content (run events sys).store.order
unfolding run
run-HasPinned key content [] sys h = h
run-HasPinned key content (e ∷ events) sys h =
    run-HasPinned key content events (happen e sys) (happen-HasPinned key content e sys h)
