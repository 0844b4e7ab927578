-- ===== src/HybridTier/Eviction.antt =====
-- ssd_tier/hybrid_tier.cpp, `evict_tensor`, `evict_expert` and the loops that call them.
use desiree_ia.Prelude.{
  ℕ, zero, suc, ◌+◌, ◌≤◌, ◌<◌, Option, none, some, List, [], ◌∷◌, length, ◌≡◌, refl, arith,
  Option-cases, Bool-cases, ltb, inl, inr, if◌then◌else◌,
}
use desiree_ia.HybridTier.Lru.{Key, Entry, evict, make_room, count_pinned, find, remove, touch}

module _ {K D : Type 0} where
  -- What `evict` gives, by the two cases of its result.
  abbrev pub Evicts : List (Entry K D) → Option (List (Entry K D)) → Type 0
  Evicts l none = count_pinned l ≡ length l
  Evicts l (some l') = (length l ≡ suc (length l')) × (count_pinned l' ≡ count_pinned l)

  pub count_pinned-le : (l : List (Entry K D)) → count_pinned l ≤ length l
  unfolding count_pinned
  count_pinned-le [] = omega arith
  count_pinned-le (x ∷ xs) = ground (arith, count_pinned-le xs)

  pub evict-Evicts : (l : List (Entry K D)) → Evicts l (evict l)
  unfolding evict count_pinned
  evict-Evicts [] = refl
  evict-Evicts (x ∷ xs) = ground (arith, evict-Evicts xs)

  -- The loop ends, and leaves room for one entry, when fewer entries than the capacity are
  -- pinned; it takes out no pinned entry.
  pub make_room_returns :
      (f capacity : ℕ) (l : List (Entry K D))
      → count_pinned l < capacity
      → length l < f
      → (l' : List (Entry K D)) × (make_room f capacity l ≡ some l')
        × (length l' < capacity)
        × (count_pinned l' ≡ count_pinned l)
  unfolding make_room
  make_room_returns zero capacity l h k = absurd (omega arith)
  make_room_returns (suc f) capacity l h k = elim (Bool-cases (ltb (length l) capacity)) [
    | inl e ↦ rw e (l, refl, ground arith, refl)
    | inr e ↦ elim (Option-cases (evict l)) [
      | inl n ↦ let full : Evicts l none = rw n at (evict-Evicts l) in absurd (ground arith)
      | inr (m, n) ↦
          let less : Evicts l (some m) = rw n at (evict-Evicts l) in
          let (l', e', lt, same) = make_room_returns f capacity m (omega arith) (omega arith) in
          rw (e, n) (l', e', lt, omega arith)
    ]
  ]

  -- It never ends, whatever the bound, when the pinned entries alone fill the capacity.
  pub make_room_hangs :
      (f capacity : ℕ) (l : List (Entry K D))
      → capacity ≤ count_pinned l
      → make_room f capacity l ≡ none
  unfolding make_room
  make_room_hangs zero capacity l h = refl
  make_room_hangs (suc f) capacity l h = elim (Option-cases (evict l)) [
    | inl n ↦ rw (n, make_room) (ground (arith, count_pinned-le l, make_room_hangs f capacity l h))
    | inr (m, n) ↦
        let less : Evicts l (some m) = rw n at (evict-Evicts l) in
        rw (n, make_room)
          (ground (arith, count_pinned-le l, make_room_hangs f capacity m (omega arith)))
  ]

module _ {K D : Type 0} ⦃e : Key K⦄ where
  pub length-remove :
      (k : K) (l : List (Entry K D)) (x : Entry K D)
      → find k l ≡ some x
      → length l ≡ suc (length (remove k l))
  unfolding find remove
  length-remove k [] x h = cc
  length-remove k (y ∷ l) x h = ground (arith, length-remove k l x)

  pub count_pinned-remove :
      (k : K) (l : List (Entry K D)) (x : Entry K D)
      → find k l ≡ some x
      → count_pinned l ≡ (if x.pinned then 1 else 0) + count_pinned (remove k l)
  unfolding find remove count_pinned
  count_pinned-remove k [] x h = cc
  count_pinned-remove k (y ∷ l) x h = ground (arith, count_pinned-remove k l x)

  pub count_pinned-touch :
      (x : Entry K D) (l : List (Entry K D))
      → find x.key l ≡ some x
      → count_pinned (touch x l) ≡ count_pinned l
  unfolding touch count_pinned
  count_pinned-touch x l f = ground (arith, count_pinned-remove x.key l x f)

  pub find-key : (k : K) (l : List (Entry K D)) (x : Entry K D) → find k l ≡ some x → x.key ≡ k
  unfolding find
  find-key k [] x h = cc
  find-key k (y ∷ l) x h = ground (arith, e.same_iff y.key k, find-key k l x)
