-- ===== src/HybridTier/Distinct.antt =====
-- ssd_tier/hybrid_tier.cpp: caches in which no key stands twice, as the maps of the C++ have it.
use desiree_ia.Prelude.{
  ℕ, Bool, Option, none, some, List, [], ◌∷◌, length, ◌≡◌, refl, arith, Option-cases, Bool-cases,
  inl, inr, ◌==◌,
}
use mathlib.Core.Path.{subst}
use desiree_ia.HybridTier.{number_key}
use desiree_ia.HybridTier.Lru.{Entry, evict, find, remove, touch, set_pinned}

module _ {D : Type 0} where
  -- No key twice.
  abbrev pub Distinct : List (Entry ℕ D) → Type 0
  Distinct [] = Unit
  Distinct (x ∷ xs) = (find x.key xs ≡ none) × Distinct xs

  abbrev pub SmallerThan : List (Entry ℕ D) → Option (List (Entry ℕ D)) → Type 0
  SmallerThan l none = Unit
  SmallerThan l (some l') = Distinct l' × ((key : ℕ) → find key l ≡ none → find key l' ≡ none)

  find-tail :
      (key : ℕ) (x : Entry ℕ D) (xs : List (Entry ℕ D))
      → find key (x ∷ xs) ≡ none
      → find key xs ≡ none
  unfolding find
  find-tail key x xs h = ground arith

  find-cons :
      (key : ℕ) (x : Entry ℕ D) (xs ys : List (Entry ℕ D))
      → ((k : ℕ) → find k xs ≡ none → find k ys ≡ none)
      → find key (x ∷ xs) ≡ none
      → find key (x ∷ ys) ≡ none
  unfolding find
  find-cons key x xs ys m h = ground (arith, m key)

  pub evict-SmallerThan : (l : List (Entry ℕ D)) → Distinct l → SmallerThan l (evict l)
  unfolding evict find
  evict-SmallerThan [] d = tt
  evict-SmallerThan (x ∷ xs) d = elim (Option-cases (evict xs)) [
    | inl n ↦ elim (Bool-cases x.pinned) [
      | inl p ↦ rw (n, p) tt
      | inr p ↦ rw (n, p) (d.1, λ key h. find-tail key _ xs h)
    ]
    | inr (ys, n) ↦
        let (less, misses) : SmallerThan xs (some ys) = rw n at (evict-SmallerThan xs d.1) in
        rw n ((misses x.key d.0, less), λ key h. find-cons key x xs ys misses h)
  ]

  find-remove : (j k : ℕ) (l : List (Entry ℕ D)) → find j l ≡ none → find j (remove k l) ≡ none
  unfolding find remove
  find-remove j k [] h = refl
  find-remove j k (x ∷ xs) h = ground (arith, find-remove j k xs)

  pub remove-Distinct :
      (k : ℕ) (l : List (Entry ℕ D))
      → Distinct l
      → Distinct (remove k l) × (find k (remove k l) ≡ none)
  unfolding find remove
  remove-Distinct k [] d = (tt, refl)
  remove-Distinct k (x ∷ xs) d = elim (Bool-cases (x.key == k)) [
    | inl e ↦
        let same : x.key ≡ k = ground arith in rw e (d.1, subst (λ j. find j xs ≡ none) same d.0)
    | inr e ↦
        let (distinct, gone) = remove-Distinct k xs d.1 in
        rw e ((find-remove x.key k xs d.0, distinct), rw e gone)
  ]

  pub touch-Distinct : (x : Entry ℕ D) (l : List (Entry ℕ D)) → Distinct l → Distinct (touch x l)
  unfolding touch
  touch-Distinct x l d = let (distinct, gone) = remove-Distinct x.key l d in (gone, distinct)

  set_pinned-find :
      (j k : ℕ) (b : Bool) (l : List (Entry ℕ D))
      → find j l ≡ none
      → find j (set_pinned k b l) ≡ none
  unfolding find set_pinned
  set_pinned-find j k b [] h = refl
  set_pinned-find j k b (x ∷ xs) h = ground (arith, set_pinned-find j k b xs)

  pub set_pinned-Distinct :
      (k : ℕ) (b : Bool) (l : List (Entry ℕ D)) → Distinct l → Distinct (set_pinned k b l)
  unfolding set_pinned
  set_pinned-Distinct k b [] d = tt
  set_pinned-Distinct k b (x ∷ xs) d = elim (Bool-cases (x.key == k)) [
    | inl e ↦ rw e d
    | inr e ↦ rw e (set_pinned-find x.key k b xs d.0, set_pinned-Distinct k b xs d.1)
  ]

  pub length-set_pinned :
      (k : ℕ) (b : Bool) (l : List (Entry ℕ D)) → length (set_pinned k b l) ≡ length l
  unfolding set_pinned
  length-set_pinned k b [] = refl
  length-set_pinned k b (x ∷ xs) = ground (arith, length-set_pinned k b xs)
