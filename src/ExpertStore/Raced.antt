-- ===== src/ExpertStore/Raced.antt =====
-- expert/expert_store.cpp, `fetch_union` while the worker evicts the expert that was just fetched.
use desiree_ia.Prelude.{ℕ, false, ◌==◌, Option, none, some, [], ◌∷◌, ◌≡◌, refl, ◌∙◌, ap}
use desiree_ia.HybridTier.{Floats, number_key}
use desiree_ia.HybridTier.Lru.{find, evict, count_of}
use desiree_ia.ExpertStore.{
  Sources, Store, init, load_data, has, room, insert_locked, fetch_key, prefetch_key, Request,
  key_of, pointer, union_from, fetch_union,
}
use desiree_ia.ExpertStore.Union.{holding, fetched_first, find_other}

-- The worker brings one expert.
abbrev pub worker_brings : ℕ → ℕ → Store → Store
worker_brings j key s = prefetch_key s j

prefetched :
    (sources : Sources) (j k : ℕ) (x y : Floats)
    → (k == j) ≡ false
    → load_data sources j ≡ some y
    → (prefetch_key (holding sources k x ((k, 1) ∷ [])) j).order
      ≡ record { key = j; content = y; hits = 0; pinned = false } ∷ []
unfolding prefetch_key insert_locked room evict find init count_of
prefetched sources j k x y n e = simp (e, n, prefetch_key, insert_locked, has) refl

null_pointer :
    (key : ℕ) (s : Store) (got : Option Floats)
    → find key s.order ≡ none
    → pointer key (s, got) ≡ none
null_pointer key s none f = refl
null_pointer key s (some content) f = rw (f, has) refl

union_one :
    (meanwhile : ℕ → Store → Store) (s : Store) (r : Request)
    → (fetch_union meanwhile s (r ∷ [])).1
      ≡ pointer
          (key_of r)
          (meanwhile (key_of r) (fetch_key s (key_of r)).0, (fetch_key s (key_of r)).1)
        ∷ []
unfolding fetch_union union_from
union_one meanwhile s r = refl

-- Of a new, empty store of capacity 1 and one request that can be read, `fetch_union` gives no
-- pointer where the worker brings another expert that can be read between the `fetch` and the lock
-- after it.
pub fetch_union_nulls :
    (sources : Sources) (r : Request) (j : ℕ) (x y : Floats)
    → (key_of r == j) ≡ false
    → load_data sources (key_of r) ≡ some x
    → load_data sources j ≡ some y
    → (fetch_union (worker_brings j) (init 1 sources) (r ∷ [])).1 ≡ none ∷ []
fetch_union_nulls sources r j x y n e f =
    let gone : find (key_of r)
          (worker_brings j (key_of r) (fetch_key (init 1 sources) (key_of r)).0).order
        ≡ none =
      ap (λ (s : Store). find (key_of r) (prefetch_key s j).order)
        (fetched_first sources (key_of r) x e)
      ∙ ap (find (key_of r)) (prefetched sources j (key_of r) x y n f)
      ∙ find_other (key_of r) j y n in
    union_one (worker_brings j) (init 1 sources) r
    ∙ ap (λ p. p ∷ [])
        (null_pointer (key_of r)
          (worker_brings j (key_of r) (fetch_key (init 1 sources) (key_of r)).0)
          (fetch_key (init 1 sources) (key_of r)).1 gone)
