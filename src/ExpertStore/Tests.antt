-- ===== src/ExpertStore/Tests.antt =====
-- expert/expert_store.cpp at a small reader.
use desiree_ia.Prelude.{
  ℕ, true, false, none, some, List, [], ◌∷◌, ◌≡◌, refl, arith, ◌==◌, if◌then◌else◌,
}
use desiree_ia.HybridTier.{Floats, number_key}
use desiree_ia.HybridTier.Lru.{Entry, find}
use desiree_ia.HybridTier.Keys.{make_key}
use desiree_ia.ExpertStore.{
  has, Sources, Store, init, load_data, Request, key_of, fetch_union, undisturbed,
}
use desiree_ia.ExpertStore.Threads.{
  System, idle, waiting, start, Event, fetches, goes_on, works, stops, prefetches, run,
}
use desiree_ia.ExpertStore.Sound.{IsSound}
use desiree_ia.ExpertStore.Kept.{init-IsSound}
use desiree_ia.ExpertStore.Interleaved.{IsConsistent, run-start-IsConsistent}
use desiree_ia.ExpertStore.Pinned.{HasPinned}
use desiree_ia.ExpertStore.Stays.{run-HasPinned}
use desiree_ia.ExpertStore.Asked.{steps}
use desiree_ia.ExpertStore.Worked.{AllBrought, run-waiting}
use desiree_ia.ExpertStore.Raced.{worker_brings, fetch_union_nulls}
use desiree_ia.ExpertStore.Union.{
  pointers, undisturbed-Spares, fetch_union-pointers, fetch_union_dangles,
}

-- The expert 9 of every layer cannot be read.
abbrev sources : Sources
sources = record {
  reader = some (λ layer idx part. if idx == 9 then none else some (layer ∷ idx ∷ part ∷ []));
  tier = none;
}

-- The worker brings an expert between the two halves of a `fetch` of it.
abbrev events : List Event
events =
    prefetches 1 (5 ∷ 9 ∷ [])
    ∷ fetches 1 5 0
    ∷ works
    ∷ works
    ∷ works
    ∷ goes_on
    ∷ works
    ∷ goes_on
    ∷ works
    ∷ stops
    ∷ []

run-start-IsConsistent_example : IsConsistent sources (run events (start (init 2 sources)))
run-start-IsConsistent_example = run-start-IsConsistent 2 sources events

abbrev pinned_entry : Entry ℕ Floats
pinned_entry = record { key = 7; content = 1 ∷ []; hits = 4; pinned = true }

abbrev pinned_store : Store
pinned_store = record (init 1 sources) { order = pinned_entry ∷ [] }

run-HasPinned_example : HasPinned 7 (1 ∷ []) (run events (start pinned_store)).store.order
run-HasPinned_example =
    run-HasPinned 7 (1 ∷ []) events (start pinned_store)
      (unfold start find in (pinned_entry, refl, refl, refl))

abbrev asked : System
asked = record {
  store = init 8 sources;
  pending = some (1, 5 ∷ 9 ∷ []);
  worker_stop = false;
  caller = idle;
  worker = waiting;
  answers = [];
}

run-waiting_example :
    let sys' = run (steps 22) asked in
    (sys'.worker ≡ waiting)
    × (sys'.pending ≡ none)
    × AllBrought asked.store.sources sys'.store.order 1 (5 ∷ 9 ∷ [])
    × ((k : ℕ) (content : Floats)
        → load_data asked.store.sources k ≡ some content
        → has k asked.store.order ≡ true
        → has k sys'.store.order ≡ true)
run-waiting_example =
    run-waiting asked 1 (5 ∷ 9 ∷ []) 22 refl refl refl (unfold init in omega arith) (omega arith)

abbrev first : Request
first = record { layer = 1; idx = 5; part = 0 }

abbrev second : Request
second = record { layer = 1; idx = 6; part = 0 }

fetch_union-pointers_example :
    IsSound sources (fetch_union undisturbed (init 1 sources) (first ∷ second ∷ first ∷ [])).0
    × ((fetch_union undisturbed (init 1 sources) (first ∷ second ∷ first ∷ [])).1
        ≡ pointers sources [] (first ∷ second ∷ first ∷ []))
fetch_union-pointers_example =
    fetch_union-pointers sources undisturbed (init 1 sources) (first ∷ second ∷ first ∷ [])
      (undisturbed-Spares sources) (init-IsSound 1 sources)

fetch_union_dangles_example :
    ((fetch_union undisturbed (init 1 sources) (first ∷ second ∷ [])).1
      ≡ some (key_of first) ∷ some (key_of second) ∷ [])
    × (find (key_of first) (fetch_union undisturbed (init 1 sources) (first ∷ second ∷ [])).0.order
        ≡ none)
fetch_union_dangles_example =
    fetch_union_dangles sources first second (1 ∷ 5 ∷ 0 ∷ []) (1 ∷ 6 ∷ 0 ∷ [])
      (unfold make_key in refl) (unfold make_key load_data in refl)
      (unfold make_key load_data in refl)

fetch_union_nulls_example :
    (fetch_union (worker_brings (key_of second)) (init 1 sources) (first ∷ [])).1 ≡ none ∷ []
fetch_union_nulls_example =
    fetch_union_nulls sources first (key_of second) (1 ∷ 5 ∷ 0 ∷ []) (1 ∷ 6 ∷ 0 ∷ [])
      (unfold make_key in refl) (unfold make_key load_data in refl)
      (unfold make_key load_data in refl)
