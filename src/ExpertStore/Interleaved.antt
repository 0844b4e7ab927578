-- ===== src/ExpertStore/Interleaved.antt =====
-- expert/expert_store.cpp: `fetch` and `prefetch_worker_loop` in any order of their steps.
use desiree_ia.Prelude.{
  ℕ, Bool, true, false, Option, none, some, List, [], ◌∷◌, ◌≡◌, sym, ◌∙◌, ap, All, Option-cases,
  Bool-cases, inl, inr, if◌then◌else◌,
}
use desiree_ia.HybridTier.{Floats, number_key}
use desiree_ia.HybridTier.Lru.{find}
use desiree_ia.HybridTier.Eviction.{find-key}
use desiree_ia.HybridTier.Coherent.{All-find}
use desiree_ia.HybridTier.Keys.{make_key}
use desiree_ia.ExpertStore.{Sources, init, load_data, has}
use desiree_ia.ExpertStore.Threads.{
  Caller, idle, missed, loaded, Worker, waiting, stopped, checking, loading, inserting, System,
  start, call, go_on, check, work, Event, fetches, goes_on, works, stops, prefetches, enter, happen,
  run,
}
use desiree_ia.ExpertStore.Sound.{IsSound, insert_locked-IsSound, found-IsSound}
use desiree_ia.ExpertStore.Kept.{init-IsSound, missed_once-IsSound, keep-IsSound}

module _ (sources : Sources) where
  -- What a thread has read is what the sources give.
  abbrev CallerRight : Caller → Type 0
  CallerRight (loaded key content) = load_data sources key ≡ some content
  CallerRight _ = Unit

  abbrev WorkerRight : Worker → Type 0
  WorkerRight (inserting key content p) = load_data sources key ≡ some content
  WorkerRight _ = Unit

  -- A sound store, threads that have read the right data, and answers that are those of the
  -- sources.
  pub record IsConsistent (sys : System) : Type 0 where
    pub sound : IsSound sources sys.store
    pub caller_right : CallerRight sys.caller
    pub worker_right : WorkerRight sys.worker
    pub answered : All (λ (a : ℕ × Option Floats). a.1 ≡ load_data sources a.0) sys.answers

  call-IsConsistent : (key : ℕ) (sys : System) → IsConsistent sys → IsConsistent (call key sys)
  unfolding call
  call-IsConsistent key sys h = elim (Option-cases (find key sys.store.order)) [
    | inl f ↦
        rw (f, call)
          (record {
            sound = missed_once-IsSound sources sys.store key h.sound;
            caller_right = tt;
            worker_right = h.worker_right;
            answered = h.answered;
          })
    | inr (x, f) ↦
        let cached = All-find _ key sys.store.order x h.sound.coherent f in
        rw (f, call)
          (record {
            sound = found-IsSound sources sys.store key x h.sound f;
            caller_right = tt;
            worker_right = h.worker_right;
            answered = (
              sym cached ∙ ap (load_data sources) (find-key key sys.store.order x f),
              h.answered,
            );
          })
  ]

  go_on_at :
      (c : Caller) (sys : System)
      → IsConsistent (record sys { caller = c })
      → IsConsistent (go_on (record sys { caller = c }))
  unfolding go_on
  go_on_at idle sys h = h
  go_on_at (missed key) sys h =
      let src : sys.store.sources ≡ sources = h.sound.sourced in
      elim (Option-cases (load_data sys.store.sources key)) [
        | inl e ↦
            rw (e, go_on)
              (record {
                sound = h.sound;
                caller_right = tt;
                worker_right = h.worker_right;
                answered = (sym e ∙ ap (λ r. load_data r key) src, h.answered);
              })
        | inr (content, e) ↦
            rw (e, go_on)
              (record {
                sound = h.sound;
                caller_right = ap (λ r. load_data r key) (sym src) ∙ e;
                worker_right = h.worker_right;
                answered = h.answered;
              })
      ]
  go_on_at (loaded key content) sys h =
      let right : load_data sources key ≡ some content = h.caller_right in
      let (sound, same) = keep-IsSound sources sys.store key content h.sound right in
      record {
        sound = sound;
        caller_right = tt;
        worker_right = h.worker_right;
        answered = (ap (λ c. some c) same ∙ sym right, h.answered);
      }

  -- The queue and the worker change, the store and the caller do not.
  placed-IsConsistent :
      {sys : System} (pending : Option (ℕ × List ℕ)) (stop : Bool) (w : Worker)
      → IsConsistent sys
      → WorkerRight w
      → IsConsistent (record sys { pending = pending; worker_stop = stop; worker = w })
  placed-IsConsistent pending stop w h r = record {
    sound = h.sound;
    caller_right = h.caller_right;
    worker_right = r;
    answered = h.answered;
  }

  WorkerRight-if :
      (b : Bool) (w w' : Worker)
      → WorkerRight w
      → WorkerRight w'
      → WorkerRight (if b then w else w')
  WorkerRight-if true w w' r r' = r
  WorkerRight-if false w w' r r' = r'

  check-WorkerRight :
      (sys : System) (layer : ℕ) (idxs parts : List ℕ) → WorkerRight (check sys layer idxs parts)
  unfolding check
  check-WorkerRight sys layer [] parts = tt
  check-WorkerRight sys layer (idx ∷ idxs) [] = elim (Option-cases sys.pending) [
    | inl n ↦ rw (n, check) tt
    | inr (newer, n) ↦ rw (n, check) tt
  ]
  check-WorkerRight sys layer (idx ∷ idxs) (part ∷ parts) =
      WorkerRight-if (has (make_key layer idx part) sys.store.order) (checking _) (loading _ _) tt
        tt

  work_at :
      (w : Worker) (sys : System)
      → IsConsistent (record sys { worker = w })
      → IsConsistent (work (record sys { worker = w }))
  unfolding work
  work_at waiting sys h = elim (Bool-cases sys.worker_stop) [
    | inl b ↦ rw (b, work) (placed-IsConsistent sys.pending true stopped h tt)
    | inr b ↦ elim (Option-cases sys.pending) [
      | inl n ↦ rw (b, n, work) h
      | inr ((layer, idxs), n) ↦
          rw (b, n, work) (placed-IsConsistent none sys.worker_stop (checking _) h tt)
    ]
  ]
  work_at stopped sys h = h
  work_at (checking p) sys h =
      placed-IsConsistent sys.pending sys.worker_stop _ h
        (check-WorkerRight (record sys { worker = checking p }) p.layer p.idxs p.parts)
  work_at (loading key p) sys h =
      let src : sys.store.sources ≡ sources = h.sound.sourced in
      elim (Option-cases (load_data sys.store.sources key)) [
        | inl e ↦ rw (e, work) (placed-IsConsistent sys.pending sys.worker_stop (checking p) h tt)
        | inr (content, e) ↦
            rw (e, work)
              (placed-IsConsistent sys.pending sys.worker_stop (inserting key content p) h
                (ap (λ r. load_data r key) (sym src) ∙ e))
      ]
  work_at (inserting key content p) sys h = record {
    sound = insert_locked-IsSound sources sys.store key content h.sound h.worker_right;
    caller_right = h.caller_right;
    worker_right = tt;
    answered = h.answered;
  }

  enter-IsConsistent :
      (c : Caller) (key : ℕ) (sys : System) → IsConsistent sys → IsConsistent (enter c key sys)
  unfolding enter
  enter-IsConsistent idle key sys h = call-IsConsistent key sys h
  enter-IsConsistent (missed key') key sys h = h
  enter-IsConsistent (loaded key' content) key sys h = h

  happen-IsConsistent : (e : Event) (sys : System) → IsConsistent sys → IsConsistent (happen e sys)
  unfolding happen
  happen-IsConsistent (fetches layer idx part) sys h =
      enter-IsConsistent sys.caller (make_key layer idx part) sys h
  happen-IsConsistent goes_on sys h = go_on_at sys.caller sys h
  happen-IsConsistent works sys h = work_at sys.worker sys h
  happen-IsConsistent stops sys h = placed-IsConsistent sys.pending true sys.worker h h.worker_right
  happen-IsConsistent (prefetches layer idxs) sys h =
      placed-IsConsistent (some (layer, idxs)) sys.worker_stop sys.worker h h.worker_right

  pub run-IsConsistent :
      (events : List Event) (sys : System) → IsConsistent sys → IsConsistent (run events sys)
  unfolding run
  run-IsConsistent [] sys h = h
  run-IsConsistent (e ∷ events) sys h =
      run-IsConsistent events (happen e sys) (happen-IsConsistent e sys h)

-- Whatever the engine's thread and the worker do, in any order of their steps: each `fetch` has
-- answered what the sources give for its key, the store has no key twice and for each of its keys
-- what the sources give, and beyond the capacity there is at most one entry that is not pinned.
pub run-start-IsConsistent :
    (cache_count : ℕ) (sources : Sources) (events : List Event)
    → IsConsistent sources (run events (start (init cache_count sources)))
unfolding start
run-start-IsConsistent cache_count sources events =
    run-IsConsistent sources events (start (init cache_count sources)) (record {
      sound = init-IsSound cache_count sources;
      caller_right = tt;
      worker_right = tt;
      answered = tt;
    })
