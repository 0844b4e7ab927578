-- ===== src/ExpertStore/Threads.antt =====
-- expert/expert_store.cpp: the engine's thread in `fetch` and the thread of
-- `prefetch_worker_loop`, step by step. A step is what a thread does under one lock, and a read of
-- `load_data` is a step of its own. The order of the steps is a list of events.
use desiree_ia.Prelude.{ℕ, Bool, true, false, Option, none, some, List, [], ◌∷◌, if◌then◌else◌}
use desiree_ia.HybridTier.{Floats, number_key}
use desiree_ia.HybridTier.Lru.{find}
use desiree_ia.HybridTier.Keys.{make_key}
use desiree_ia.ExpertStore.{Store, load_data, has, insert_locked, found, missed_once, keep}

-- Where the engine's thread is: outside `fetch`, before the read, after it.
pub data Caller : Type 0 where
  idle : Caller
  missed : ℕ → Caller
  loaded : ℕ → Floats → Caller

-- Where the worker is in the request it took: the layer, the indices that are left, of which the
-- first is in work, and the parts of that one that are left.
pub record Place : Type 0 where
  pub layer : ℕ
  pub idxs : List ℕ
  pub parts : List ℕ

pub data Worker : Type 0 where
  waiting stopped : Worker
  checking : Place → Worker
  loading : ℕ → Place → Worker
  inserting : ℕ → Floats → Place → Worker

-- `answers` has what each `fetch` returned with its key, the last one first.
pub record System : Type 0 where
  pub store : Store
  pub pending : Option (ℕ × List ℕ)
  pub worker_stop : Bool
  pub caller : Caller
  pub worker : Worker
  pub answers : List (ℕ × Option Floats)

unfoldable pub start : Store → System
start s = record {
  store = s;
  pending = none;
  worker_stop = false;
  caller = idle;
  worker = waiting;
  answers = [];
}

abbrev pub answer : ℕ → Option Floats → System → System
answer key got sys = record sys { caller = idle; answers = (key, got) ∷ sys.answers }

-- The first lock of `fetch`.
unfoldable pub call : ℕ → System → System
unfolding found
call key sys = elim (find key sys.store.order) [
  | some x ↦ answer key (some x.content) (record sys { store = found sys.store x })
  | none ↦ record sys { store = missed_once sys.store key; caller = missed key }
]

-- The read, and the second lock of `fetch`.
unfoldable pub go_on : System → System
unfolding load_data keep
go_on sys = elim sys.caller [
  | idle ↦ sys
  | missed key ↦ elim (load_data sys.store.sources key) [
    | none ↦ answer key none sys
    | some content ↦ record sys { caller = loaded key content }
  ]
  | loaded key content ↦
      answer key (some (keep sys.store key content).1)
        (record sys { store = (keep sys.store key content).0 })
]

abbrev pub all_parts : List ℕ
all_parts = 0 ∷ 1 ∷ 2 ∷ []

-- After the parts of an index: a newer request ends the work on this one.
abbrev pub next_index : Option (ℕ × List ℕ) → ℕ → List ℕ → Worker
next_index (some newer) layer idxs = waiting
next_index none layer idxs = checking (record { layer = layer; idxs = idxs; parts = all_parts })

-- At the top of one of the two inner loops of `prefetch_worker_loop`.
unfoldable pub check : System → ℕ → List ℕ → List ℕ → Worker
unfolding make_key
check sys layer [] parts = waiting
check sys layer (idx ∷ idxs) [] = next_index sys.pending layer idxs
check sys layer (idx ∷ idxs) (part ∷ parts) =
    let next : Place = record { layer = layer; idxs = idx ∷ idxs; parts = parts } in
    let key = make_key layer idx part in
    if has key sys.store.order then checking next else loading key next

unfoldable pub work : System → System
unfolding check load_data insert_locked
work sys = elim sys.worker [
  | stopped ↦ sys
  | waiting ↦ if sys.worker_stop then record sys { worker = stopped } else elim sys.pending [
    | none ↦ sys
    | some (layer, idxs) ↦ record sys {
      pending = none;
      worker = checking (record { layer = layer; idxs = idxs; parts = all_parts });
    }
  ]
  | checking p ↦ record sys { worker = check sys p.layer p.idxs p.parts }
  | loading key p ↦ elim (load_data sys.store.sources key) [
    | none ↦ record sys { worker = checking p }
    | some content ↦ record sys { worker = inserting key content p }
  ]
  | inserting key content p ↦ record sys {
    store = insert_locked sys.store key content;
    worker = checking p;
  }
]

-- What happens next: the engine's thread calls `fetch`, goes on in it, or calls `prefetch_async`;
-- the worker takes a step; the destructor stops the worker.
pub data Event : Type 0 where
  fetches : ℕ → ℕ → ℕ → Event
  goes_on works stops : Event
  prefetches : ℕ → List ℕ → Event

-- A call while `fetch` has not returned cannot be.
unfoldable pub enter : Caller → ℕ → System → System
unfolding call
enter idle key sys = call key sys
enter (missed key') key sys = sys
enter (loaded key' content) key sys = sys

unfoldable pub happen : Event → System → System
unfolding enter go_on work make_key
happen (fetches layer idx part) sys = enter sys.caller (make_key layer idx part) sys
happen goes_on sys = go_on sys
happen works sys = work sys
happen stops sys = record sys { worker_stop = true }
happen (prefetches layer idxs) sys = record sys { pending = some (layer, idxs) }

unfoldable pub run : List Event → System → System
unfolding happen
run [] sys = sys
run (e ∷ events) sys = run events (happen e sys)
