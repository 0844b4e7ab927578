-- ===== src/HybridTier/Lru.antt =====
-- ssd_tier/hybrid_tier.cpp: the caches of `HybridTier::Impl`. A C++ cache is a list in order of
-- use and a map from keys to its entries; here it is the list, and the map's `find` looks the key
-- up in it.
use desiree_ia.Prelude.{
  ℕ, zero, suc, ◌+◌, ◌%◌, ◌^◌, Bool, true, Option, none, some, List, [], ◌∷◌, length, ltb, ◌≡◌, ◌↔◌,
  if◌then◌else◌,
}

-- Equality of keys, as the C++ maps use it.
pub record Key (K : Type 0) : Type 0 where
  pub same : K → K → Bool
  pub same_iff : (a b : K) → (same a b ≡ true) ↔ (a ≡ b)

-- `TensorEntry` and `RawEntry`: the payload is `content`.
pub record Entry (K D : Type 0) : Type 0 where
  pub key : K
  pub content : D
  pub hits : ℕ
  pub pinned : Bool

abbrev pub inc32 : ℕ → ℕ
inc32 n = (n + 1) % 2 ^ 32

module _ {K D : Type 0} where
  -- `evict_tensor`, `evict_expert`: the last entry that is not pinned goes; `none` where there is
  -- no such entry and nothing is changed.
  unfoldable pub evict : List (Entry K D) → Option (List (Entry K D))
  evict [] = none
  evict (x ∷ xs) = elim (evict xs) [
    | some ys ↦ some (x ∷ ys)
    | none ↦ if x.pinned then none else some xs
  ]

  -- `while (size >= capacity) evict();` with a bound on the rounds; `none` where it is met.
  unfoldable pub make_room : ℕ → ℕ → List (Entry K D) → Option (List (Entry K D))
  make_room zero capacity l = none
  make_room (suc f) capacity l =
      if ltb (length l) capacity
      then some l
      else elim (evict l) [ some l' ↦ make_room f capacity l' | none ↦ make_room f capacity l ]

module _ {K D : Type 0} ⦃e : Key K⦄ where
  unfoldable pub find : K → List (Entry K D) → Option (Entry K D)
  find k [] = none
  find k (x ∷ xs) = if e.same x.key k then some x else find k xs

  unfoldable pub remove : K → List (Entry K D) → List (Entry K D)
  remove k [] = []
  remove k (x ∷ xs) = if e.same x.key k then xs else x ∷ remove k xs

  -- `touch_tensor`, `touch_expert`: the entry that was found moves to the front.
  unfoldable pub touch : Entry K D → List (Entry K D) → List (Entry K D)
  touch x l = record x { hits = inc32 x.hits } ∷ remove x.key l

  unfoldable pub set_pinned : K → Bool → List (Entry K D) → List (Entry K D)
  set_pinned k b [] = []
  set_pinned k b (x ∷ xs) =
      if e.same x.key k then record x { pinned = b } ∷ xs else x ∷ set_pinned k b xs

-- `usage[key]++` on a map that starts every key at 0, and its lookup.
module _ {K : Type 0} ⦃e : Key K⦄ where
  unfoldable pub count_of : K → List (K × ℕ) → ℕ
  count_of k [] = 0
  count_of k ((j, n) ∷ m) = if e.same j k then n else count_of k m

  unfoldable pub bump : K → List (K × ℕ) → List (K × ℕ)
  bump k [] = (k, 1) ∷ []
  bump k ((j, n) ∷ m) = if e.same j k then (j, inc32 n) ∷ m else (j, n) ∷ bump k m

-- The loops of `stats` over one cache.
unfoldable pub count_pinned : {K D : Type 0} → List (Entry K D) → ℕ
count_pinned [] = 0
count_pinned (x ∷ xs) = if x.pinned then suc (count_pinned xs) else count_pinned xs
