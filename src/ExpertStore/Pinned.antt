-- ===== src/ExpertStore/Pinned.antt =====
-- expert/expert_store.cpp: the entries that are pinned.
use desiree_ia.Prelude.{
  ℕ, Bool, true, false, ◌||◌, ◌==◌, ==_iff, Option, none, some, List, [], ◌∷◌, length, ◌≡◌, refl,
  sym, ◌∙◌, ap, arith, Option-cases, Bool-cases, inl, inr, ◌⊎◌, leb,
}
use mathlib.Core.Path.{subst}
use desiree_ia.HybridTier.{Floats, number_key}
use desiree_ia.HybridTier.Lru.{Entry, find, evict, remove, touch}
use desiree_ia.HybridTier.Eviction.{find-key}
use desiree_ia.ExpertStore.{Store, insert_locked, room, found}
use desiree_ia.ExpertStore.Sound.{insert_locked-held, insert_locked-new}

-- The list has a pinned entry of the key, with the content.
abbrev pub HasPinned : ℕ → Floats → List (Entry ℕ Floats) → Type 0
HasPinned key content l =
    (y : Entry ℕ Floats) × (find key l ≡ some y) × (y.pinned ≡ true) × (y.content ≡ content)

module _ (key : ℕ) (content : Floats) where
  abbrev OptionPinned : Option (List (Entry ℕ Floats)) → Type 0
  OptionPinned none = Unit
  OptionPinned (some l) = HasPinned key content l

  front-HasPinned :
      (x : Entry ℕ Floats) (l : List (Entry ℕ Floats))
      → (x.key == key) ≡ true
      → x.pinned ≡ true
      → x.content ≡ content
      → HasPinned key content (x ∷ l)
  unfolding find
  front-HasPinned x l e p c = (x, simp e refl, p, c)

  cons-HasPinned :
      (x : Entry ℕ Floats) (l : List (Entry ℕ Floats))
      → (x.key == key) ≡ false
      → HasPinned key content l
      → HasPinned key content (x ∷ l)
  unfolding find
  cons-HasPinned x l n (y, f, p, c) = (y, rw n f, p, c)

  -- Where the entry is: at the front, or behind it.
  cons_cases :
      (x : Entry ℕ Floats) (l : List (Entry ℕ Floats))
      → HasPinned key content (x ∷ l)
      → (((x.key == key) ≡ true) × (x.pinned ≡ true) × (x.content ≡ content))
        ⊎ (((x.key == key) ≡ false) × HasPinned key content l)
  unfolding find
  cons_cases x l (y, f, p, c) = elim (Bool-cases (x.key == key)) [
    | inl e ↦
        let same : x ≡ y = ground arith in
        inl (e, ap (λ z. z.pinned) same ∙ p, ap (λ z. z.content) same ∙ c)
    | inr e ↦ inr (e, (y, ground arith, p, c))
  ]

  evict-HasPinned : (l : List (Entry ℕ Floats)) → HasPinned key content l → OptionPinned (evict l)
  unfolding evict find
  evict-HasPinned [] h = tt
  evict-HasPinned (x ∷ xs) h = elim (cons_cases x xs h) [
    | inl (e, p, c) ↦ elim (Option-cases (evict xs)) [
      | inl n ↦ simp (n, p) tt
      | inr (ys, n) ↦ rw n (front-HasPinned x ys e p c)
    ]
    | inr (e, later) ↦ elim (Option-cases (evict xs)) [
      | inl n ↦ elim (Bool-cases x.pinned) [ inl p ↦ simp (n, p) tt | inr p ↦ simp (n, p) later ]
      | inr (ys, n) ↦
          let kept : OptionPinned (some ys) = rw n at (evict-HasPinned xs later) in
          rw n (cons-HasPinned x ys e kept)
    ]
  ]

  room-HasPinned :
      (n : ℕ) (l : List (Entry ℕ Floats))
      → HasPinned key content l
      → HasPinned key content (room n l)
  unfolding room
  room-HasPinned n l h = elim (Bool-cases (leb n (length l))) [
    | inr e ↦ rw (e, room) h
    | inl e ↦ elim (Option-cases (evict l)) [
      | inl m ↦ rw (e, m, room) h
      | inr (l', m) ↦
          let kept : OptionPinned (some l') = rw m at (evict-HasPinned l h) in rw (e, m, room) kept
    ]
  ]

  remove-HasPinned :
      (k : ℕ) (l : List (Entry ℕ Floats))
      → (k == key) ≡ false
      → HasPinned key content l
      → HasPinned key content (remove k l)
  unfolding remove
  remove-HasPinned k [] n h = h
  remove-HasPinned k (x ∷ xs) n h = elim (cons_cases x xs h) [
    | inl (e, p, c) ↦
        let other : (x.key == k) ≡ false = ground arith in
        simp other (front-HasPinned x (remove k xs) e p c)
    | inr (e, later) ↦ elim (Bool-cases (x.key == k)) [
      | inl g ↦ simp g later
      | inr g ↦ simp g (cons-HasPinned x (remove k xs) e (remove-HasPinned k xs n later))
    ]
  ]

  pinned_or : (a b : Bool) → a ≡ true → (a || b) ≡ true
  pinned_or true b e = refl
  pinned_or false b e = cc

  some_same : (x y : Entry ℕ Floats) → some x ≡ some y → x ≡ y
  some_same x y e = cc

  pub found-HasPinned :
      (s : Store) (j : ℕ) (x : Entry ℕ Floats)
      → find j s.order ≡ some x
      → HasPinned key content s.order
      → HasPinned key content (found s x).order
  unfolding found touch
  found-HasPinned s j x f h = elim (Bool-cases (x.key == key)) [
    | inl e ↦
        let (y, g, p, c) = h in
        let here : j ≡ key = ground (arith, find-key j s.order x f) in
        let same : x ≡ y = some_same x y (sym f ∙ ap (λ k. find k s.order) here ∙ g) in
        front-HasPinned _ (remove x.key s.order) e
          (pinned_or x.pinned _ (ap (λ (z : Entry ℕ Floats). z.pinned) same ∙ p))
          (ap (λ (z : Entry ℕ Floats). z.content) same ∙ c)
    | inr e ↦ cons-HasPinned _ (remove x.key s.order) e (remove-HasPinned x.key s.order e h)
  ]

  pub insert_locked-HasPinned :
      (s : Store) (j : ℕ) (d : Floats)
      → HasPinned key content s.order
      → HasPinned key content (insert_locked s j d).order
  insert_locked-HasPinned s j d h = elim (Option-cases (find j s.order)) [
    | inr (x, f) ↦
        subst (λ (t : Store). HasPinned key content t.order) (sym (insert_locked-held s j d x f)) h
    | inl f ↦
        subst (λ (t : Store). HasPinned key content t.order) (sym (insert_locked-new s j d f))
          (cons-HasPinned _ (room s.cache_count s.order) (other j s.order f h)
            (room-HasPinned s.cache_count s.order h))
  ]
    where
      other :
          (j : ℕ) (l : List (Entry ℕ Floats))
          → find j l ≡ none
          → HasPinned key content l
          → (j == key) ≡ false
      other j l n (y, f, p, c) = ground (arith, ==_iff j key)
