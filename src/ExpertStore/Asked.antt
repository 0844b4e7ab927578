-- ===== src/ExpertStore/Asked.antt =====
-- expert/expert_store.cpp, `prefetch_worker_loop`: what is left of a request, and a step of it.
use desiree_ia.Prelude.{
  ℕ, zero, suc, ◌+◌, ◌*◌, ◌≤◌, ◌<◌, true, false, none, some, List, [], ◌∷◌, length, leb, ◌≡◌, refl,
  arith, Bool-cases, inl, inr, ◌⊎◌,
}
use mathlib.Core.Path.{subst}
use desiree_ia.HybridTier.{Floats, number_key}
use desiree_ia.HybridTier.Lru.{Entry, find}
use desiree_ia.HybridTier.Keys.{make_key}
use desiree_ia.ExpertStore.{Store, load_data, has, room, insert_locked}
use desiree_ia.ExpertStore.Threads.{
  Worker, waiting, stopped, checking, loading, inserting, Place, System, all_parts, work, Event,
  works,
}

-- So many steps of the worker.
abbrev pub steps : ℕ → List Event
steps zero = []
steps (suc n) = works ∷ steps n

-- A bound on the steps that the rest of a request takes.
abbrev pub place_cost : List ℕ → List ℕ → ℕ
place_cost [] parts = 1
place_cost (idx ∷ idxs) parts = 3 * length parts + 2 + 10 * length idxs

abbrev pub cost : Worker → ℕ
cost waiting = 0
cost stopped = 0
cost (checking p) = place_cost p.idxs p.parts
cost (loading key p) = 2 + place_cost p.idxs p.parts
cost (inserting key content p) = 1 + place_cost p.idxs p.parts

-- How many entries the rest of a request may put in.
abbrev pub place_needs : List ℕ → List ℕ → ℕ
place_needs [] parts = 0
place_needs (idx ∷ idxs) parts = length parts + 3 * length idxs

abbrev pub needs : Worker → ℕ
needs waiting = 0
needs stopped = 0
needs (checking p) = place_needs p.idxs p.parts
needs (loading key p) = suc (place_needs p.idxs p.parts)
needs (inserting key content p) = suc (place_needs p.idxs p.parts)

-- The keys that the rest of a request asks for.
abbrev pub PartAsked : ℕ → ℕ → ℕ → List ℕ → Type 0
PartAsked k layer idx [] = ⊥
PartAsked k layer idx (part ∷ parts) = (make_key layer idx part ≡ k) ⊎ PartAsked k layer idx parts

abbrev pub IndexAsked : ℕ → ℕ → List ℕ → Type 0
IndexAsked k layer [] = ⊥
IndexAsked k layer (idx ∷ idxs) = PartAsked k layer idx all_parts ⊎ IndexAsked k layer idxs

abbrev pub PlaceAsked : ℕ → ℕ → List ℕ → List ℕ → Type 0
PlaceAsked k layer [] parts = ⊥
PlaceAsked k layer (idx ∷ idxs) parts = PartAsked k layer idx parts ⊎ IndexAsked k layer idxs

abbrev pub Asked : ℕ → Worker → Type 0
Asked k waiting = ⊥
Asked k stopped = ⊥
Asked k (checking p) = PlaceAsked k p.layer p.idxs p.parts
Asked k (loading key p) = (key ≡ k) ⊎ PlaceAsked k p.layer p.idxs p.parts
Asked k (inserting key content p) = (key ≡ k) ⊎ PlaceAsked k p.layer p.idxs p.parts

pub PlaceAsked-all_parts :
    (k layer : ℕ) (idxs : List ℕ) → IndexAsked k layer idxs → PlaceAsked k layer idxs all_parts
PlaceAsked-all_parts k layer [] a = a
PlaceAsked-all_parts k layer (idx ∷ idxs) a = a

abbrev pub Goes : Worker → Type 0
Goes stopped = ⊥
Goes _ = Unit

pub place_cost-le :
    (idxs : List ℕ) (n : ℕ) → 10 * length idxs + 1 ≤ n → place_cost idxs all_parts ≤ n
place_cost-le [] n h = omega arith
place_cost-le (idx ∷ idxs) n h = omega arith

pub place_needs-le : (idxs : List ℕ) → place_needs idxs all_parts ≤ 3 * length idxs
place_needs-le [] = omega arith
place_needs-le (idx ∷ idxs) = omega arith

-- With nothing else asked of the worker.
abbrev pub alone : System → Worker → System
alone sys w = record sys { pending = none; worker_stop = false; worker = w }

abbrev pub Waits : System → Type 0
Waits sys = (sys.worker ≡ waiting) × (sys.pending ≡ none)

pub work_unread :
    (sys : System) (key : ℕ) (p : Place)
    → load_data sys.store.sources key ≡ none
    → work (alone sys (loading key p)) ≡ alone sys (checking p)
unfolding work
work_unread sys key p e = rw (e, work) refl

pub work_read :
    (sys : System) (key : ℕ) (p : Place) (content : Floats)
    → load_data sys.store.sources key ≡ some content
    → work (alone sys (loading key p)) ≡ alone sys (inserting key content p)
unfolding work
work_read sys key p content e = rw (e, work) refl

pub no_cost : (idxs parts : List ℕ) → place_cost idxs parts ≤ 0 → ⊥
no_cost [] parts h = omega arith
no_cost (idx ∷ idxs) parts h = omega arith

has-cons :
    (k : ℕ) (x : Entry ℕ Floats) (l : List (Entry ℕ Floats))
    → (x.key ≡ k) ⊎ (has k l ≡ true)
    → has k (x ∷ l) ≡ true
unfolding find
has-cons k x l (inl e) = ground arith
has-cons k x l (inr e) = ground arith

held :
    (key : ℕ) (l : List (Entry ℕ Floats))
    → has key l ≡ true
    → (k : ℕ) → (key ≡ k) ⊎ (has k l ≡ true)
    → has k l ≡ true
held key l e k (inl same) = subst (λ j. has j l ≡ true) same e
held key l e k (inr h) = h

-- What an insertion into a list that is not full leaves.
abbrev pub Grown : Store → ℕ → Store → Type 0
Grown s key s' =
    (s'.sources ≡ s.sources)
    × (s'.cache_count ≡ s.cache_count)
    × (length s'.order ≤ suc (length s.order))
    × ((k : ℕ) → (key ≡ k) ⊎ (has k s.order ≡ true) → has k s'.order ≡ true)

pub insert_locked-Grown :
    (s : Store) (key : ℕ) (content : Floats)
    → length s.order < s.cache_count
    → Grown s key (insert_locked s key content)
unfolding insert_locked room
insert_locked-Grown s key content h = elim (Bool-cases (has key s.order)) [
  | inl e ↦ rw (e, insert_locked) (refl, refl, omega arith, held key s.order e)
  | inr e ↦
      let fits : leb s.cache_count (length s.order) ≡ false = ground arith in
      rw (e, fits, insert_locked, room) (refl, refl, omega arith, λ k a. has-cons k _ s.order a)
]
