-- ===== src/ExpertStore/Worked.antt =====
-- expert/expert_store.cpp, `prefetch_worker_loop`: a request comes to its end, and its experts are
-- cached.
use desiree_ia.Prelude.{
  ℕ, zero, suc, ◌+◌, ◌*◌, ◌≤◌, true, false, none, some, List, [], ◌∷◌, length, ◌≡◌, refl, sym, ap,
  ◌∙◌, arith, Option-cases, Bool-cases, inl, inr, All,
}
use mathlib.Core.Path.{subst}
use desiree_ia.HybridTier.{Floats, number_key}
use desiree_ia.HybridTier.Lru.{Entry}
use desiree_ia.HybridTier.Keys.{make_key}
use desiree_ia.ExpertStore.{Sources, load_data, has, insert_locked}
use desiree_ia.ExpertStore.Threads.{
  Worker, waiting, stopped, checking, loading, inserting, Place, System, all_parts, check, work,
  happen, run,
}
use desiree_ia.ExpertStore.Asked.{
  steps, cost, needs, IndexAsked, Goes, alone, Waits, PlaceAsked-all_parts, place_cost-le,
  place_needs-le, work_unread, work_read, no_cost, insert_locked-Grown,
}
use desiree_ia.ExpertStore.Due.{
  Due, still_next, still_cached, still_loading, still_unread, still_inserted, still_waiting,
}

module _ (sources : Sources) where
  -- Done, and what was due from here and can be read is cached.
  abbrev Ends : System → Worker → System → Type 0
  Ends sys w t =
      Waits t
      × ((k : ℕ) (content : Floats)
          → load_data sources k ≡ some content
          → Due sys w k
          → has k t.store.order ≡ true)

  record Fits (n : ℕ) (sys : System) (w : Worker) : Type 0 where
    goes : Goes w
    ends : cost w ≤ n
    sourced : sys.store.sources ≡ sources
    roomy : length sys.store.order + needs w ≤ sys.store.cache_count

  Ends-back :
      (n : ℕ) (sys sys' : System) (w w' : Worker)
      → ((k : ℕ) (content : Floats)
          → load_data sources k ≡ some content
          → Due sys w k
          → Due sys' w' k)
      → Ends sys' w' (run (steps n) (alone sys' w'))
      → Ends sys w (run (steps n) (alone sys' w'))
  Ends-back n sys sys' w w' move (e, h) = (e, λ k c l d. h k c l (move k c l d))

  place-Ends :
      (n : ℕ) (sys : System) (layer : ℕ) (idxs parts : List ℕ)
      → let p : Place = record { layer = layer; idxs = idxs; parts = parts } in
        ((w : Worker) → Fits n sys w → Ends sys w (run (steps n) (alone sys w)))
        → Fits (suc n) sys (checking p)
        → Ends sys
            (checking p)
            (run (steps n) (alone sys (check (alone sys (checking p)) layer idxs parts)))
  unfolding check
  place-Ends n sys layer [] parts go f = go waiting (record {
    goes = tt;
    ends = omega arith;
    sourced = f.sourced;
    roomy = omega (arith, f.roomy);
  })
  place-Ends n sys layer (idx ∷ idxs) [] go f =
      let next : Place = record { layer = layer; idxs = idxs; parts = all_parts } in
      let this : Place = record { layer = layer; idxs = idx ∷ idxs; parts = [] } in
      Ends-back n sys sys (checking this) (checking next)
        (λ k c l d. still_next sys layer idx idxs k d)
        (go (checking next) (record {
          goes = tt;
          ends = place_cost-le idxs n (omega (arith, f.ends));
          sourced = f.sourced;
          roomy = omega (arith, f.roomy, place_needs-le idxs);
        }))
  place-Ends n sys layer (idx ∷ idxs) (part ∷ parts) go f =
      let next : Place = record { layer = layer; idxs = idx ∷ idxs; parts = parts } in
      let this : Place = record { layer = layer; idxs = idx ∷ idxs; parts = part ∷ parts } in
      let key = make_key layer idx part in
      elim (Bool-cases (has key sys.store.order)) [
        | inl e ↦ rw e (
            Ends-back n sys sys (checking this) (checking next)
              (λ k c l d. still_cached sys layer idx part idxs parts k e d)
              (go (checking next) (record {
                goes = tt;
                ends = omega (arith, f.ends);
                sourced = f.sourced;
                roomy = omega (arith, f.roomy);
              })))
        | inr e ↦ rw e (
            Ends-back n sys sys (checking this) (loading key next)
              (λ k c l d. still_loading sys layer idx part idxs parts k d)
              (go (loading key next) (record {
                goes = tt;
                ends = omega (arith, f.ends);
                sourced = f.sourced;
                roomy = omega (arith, f.roomy);
              })))
      ]

  -- Of a system that fits, the rest of the request is done.
  ends :
      (n : ℕ) (w : Worker) (sys : System) → Fits n sys w → Ends sys w (run (steps n) (alone sys w))
  unfolding run happen work
  ends zero waiting sys f = ((refl, refl), λ k c l d. still_waiting sys k d)
  ends (suc n) waiting sys f =
      ends n waiting sys
        (record { goes = tt; ends = omega arith; sourced = f.sourced; roomy = f.roomy })
  ends n stopped sys f = absurd f.goes
  ends zero (checking p) sys f = absurd (no_cost p.idxs p.parts f.ends)
  ends (suc n) (checking p) sys f =
      place-Ends n sys p.layer p.idxs p.parts (λ w f. ends n w sys f) f
  ends zero (loading key p) sys f = absurd (omega (arith, f.ends))
  ends (suc n) (loading key p) sys f = elim (Option-cases (load_data sys.store.sources key)) [
    | inl e ↦
        subst (λ t. Ends sys (loading key p) (run (steps n) t)) (sym (work_unread sys key p e))
          (Ends-back n sys sys (loading key p) (checking p)
            (λ k c l d.
              still_unread sources sys key p k c (ap (λ t. load_data t key) (sym f.sourced) ∙ e) l
                d)
            (ends n (checking p) sys (record {
              goes = tt;
              ends = omega (arith, f.ends);
              sourced = f.sourced;
              roomy = omega (arith, f.roomy);
            })))
    | inr (content, e) ↦
        subst (λ t. Ends sys (loading key p) (run (steps n) t))
          (sym (work_read sys key p content e))
          (ends n (inserting key content p) sys (record {
            goes = tt;
            ends = omega (arith, f.ends);
            sourced = f.sourced;
            roomy = f.roomy;
          }))
  ]
  ends zero (inserting key content p) sys f = absurd (omega (arith, f.ends))
  ends (suc n) (inserting key content p) sys f =
      let grown = insert_locked-Grown sys.store key content (omega (arith, f.roomy)) in
      let sys' : System = record sys { store = insert_locked sys.store key content } in
      Ends-back n sys sys' (inserting key content p) (checking p)
        (λ k c l d. still_inserted sys key content p k grown d)
        (ends n (checking p) sys' (record {
          goes = tt;
          ends = omega (arith, f.ends);
          sourced = grown.0 ∙ f.sourced;
          roomy = omega (arith, f.roomy, grown.1, grown.2);
        }))

taken :
    (sys : System) (layer : ℕ) (idxs : List ℕ)
    → sys.worker_stop ≡ false
    → sys.pending ≡ some (layer, idxs)
    → sys.worker ≡ waiting
    → work sys ≡ alone sys (checking (record { layer = layer; idxs = idxs; parts = all_parts }))
unfolding work
taken sys layer idxs b p w =
    rw (w, work, b, p)
      (ap
        (λ stop. record sys {
          pending = none;
          worker_stop = stop;
          worker = checking (record { layer = layer; idxs = idxs; parts = all_parts });
        })
        b)

-- Each part of an index that can be read is cached.
abbrev pub Brought : Sources → List (Entry ℕ Floats) → ℕ → ℕ → ℕ → Type 0
Brought sources order layer idx part =
    (content : Floats)
    → load_data sources (make_key layer idx part) ≡ some content
    → has (make_key layer idx part) order ≡ true

abbrev pub AllBrought : Sources → List (Entry ℕ Floats) → ℕ → List ℕ → Type 0
AllBrought sources order layer = All (λ idx.
    Brought sources order layer idx 0
    × Brought sources order layer idx 1
    × Brought sources order layer idx 2)

index-AllBrought :
    (sources : Sources) (order : List (Entry ℕ Floats)) (layer : ℕ) (idxs : List ℕ)
    → ((k : ℕ) (content : Floats)
        → load_data sources k ≡ some content
        → IndexAsked k layer idxs
        → has k order ≡ true)
    → AllBrought sources order layer idxs
index-AllBrought sources order layer [] h = tt
index-AllBrought sources order layer (idx ∷ idxs) h = (
  (
    (λ c l. h _ c l (inl (inl refl))),
    (λ c l. h _ c l (inl (inr (inl refl)))),
    (λ c l. h _ c l (inl (inr (inr (inl refl))))),
  ),
  index-AllBrought sources order layer idxs (λ k c l a. h k c l (inr a)),
)

-- Where the store has room for three more entries for each index of the request, a worker that waits
-- and then takes ten steps for each index and two more, with no step of another thread between them
-- and no stop, is done with the request: it waits with no request pending; each of the parts 0, 1
-- and 2 of each index of the request that can be read is cached; and what was cached and can be read
-- still is.
pub run-waiting :
    (sys : System) (layer : ℕ) (idxs : List ℕ) (n : ℕ)
    → sys.worker_stop ≡ false
    → sys.pending ≡ some (layer, idxs)
    → sys.worker ≡ waiting
    → length sys.store.order + 3 * length idxs ≤ sys.store.cache_count
    → 10 * length idxs + 2 ≤ n
    → let sys' = run (steps n) sys in
      (sys'.worker ≡ waiting)
      × (sys'.pending ≡ none)
      × AllBrought sys.store.sources sys'.store.order layer idxs
      × ((k : ℕ) (content : Floats)
          → load_data sys.store.sources k ≡ some content
          → has k sys.store.order ≡ true
          → has k sys'.store.order ≡ true)
unfolding run happen
run-waiting sys layer idxs zero b p w r h = absurd (omega arith)
run-waiting sys layer idxs (suc n) b p w r h =
    let place : Place = record { layer = layer; idxs = idxs; parts = all_parts } in
    let (done, due) =
      subst (λ t. Ends sys.store.sources sys (checking place) (run (steps n) t))
        (sym (taken sys layer idxs b p w))
        (ends sys.store.sources n (checking place) sys (record {
          goes = tt;
          ends = place_cost-le idxs n (omega (arith, h));
          sourced = refl;
          roomy = omega (arith, r, place_needs-le idxs);
        })) in
    (
      done.0,
      done.1,
      index-AllBrought sys.store.sources _ layer idxs
          (λ k c l a. due k c l (inl (PlaceAsked-all_parts k layer idxs a))),
      λ k c l e. due k c l (inr e),
    )
