-- ===== src/ExpertStore/Sound.antt =====
-- expert/expert_store.cpp: what holds of the store between any two steps.
use desiree_ia.Prelude.{
  ℕ, suc, ◌≤◌, ◌<◌, Bool, ◌&&◌, ◌||◌, none, some, List, ◌∷◌, length, ◌≡◌, sym, arith, All,
  Option-cases, Bool-cases, leb, inl, inr, ◌⊎◌,
}
use mathlib.Core.Path.{subst}
use desiree_ia.HybridTier.{Floats, number_key}
use desiree_ia.HybridTier.Lru.{Entry, evict, find, touch, count_pinned, count_of}
use desiree_ia.HybridTier.Eviction.{
  Evicts, evict-Evicts, length-remove, count_pinned-remove, find-key,
}
use desiree_ia.HybridTier.Distinct.{Distinct, SmallerThan, evict-SmallerThan, remove-Distinct}
use desiree_ia.HybridTier.Coherent.{All-evict, All-remove, All-find}
use desiree_ia.ExpertStore.{Sources, Store, load_data, room, insert_locked, found, pin_threshold}

pub insert_locked-held :
    (s : Store) (key : ℕ) (content : Floats) (x : Entry ℕ Floats)
    → find key s.order ≡ some x
    → insert_locked s key content ≡ s
unfolding insert_locked
insert_locked-held s key content x f = ground arith

pub insert_locked-new :
    (s : Store) (key : ℕ) (content : Floats)
    → find key s.order ≡ none
    → insert_locked s key content ≡ record s {
      order =
          record {
            key = key;
            content = content;
            hits = 0;
            pinned = s.pin_enabled && leb pin_threshold (count_of key s.usage);
          }
          ∷ room s.cache_count s.order;
    }
unfolding insert_locked
insert_locked-new s key content f = ground arith

-- What holds of the store: each entry is what the sources give for its key, no key stands twice,
-- and beyond `cache_count` there is no more than one entry that is not pinned.
pub record IsSound (sources : Sources) (s : Store) : Type 0 where
  pub sourced : s.sources ≡ sources
  pub coherent : All (λ x. load_data sources x.key ≡ some x.content) s.order
  pub distinct : Distinct s.order
  pub bounded : (length s.order ≤ s.cache_count) ⊎ (length s.order ≤ suc (count_pinned s.order))

module _ (sources : Sources) where
  abbrev Coherent : List (Entry ℕ Floats) → Type 0
  Coherent = All (λ x. load_data sources x.key ≡ some x.content)

  -- What `room` leaves.
  abbrev Roomy : ℕ → List (Entry ℕ Floats) → List (Entry ℕ Floats) → Type 0
  Roomy c l l' =
      Coherent l'
      × Distinct l'
      × ((key : ℕ) → find key l ≡ none → find key l' ≡ none)
      × ((length l' < c) ⊎ (length l' ≤ count_pinned l'))

  room-Roomy :
      (c : ℕ) (l : List (Entry ℕ Floats))
      → Coherent l
      → Distinct l
      → (length l ≤ c) ⊎ (length l ≤ suc (count_pinned l))
      → Roomy c l (room c l)
  unfolding room
  room-Roomy c l h d b = elim (Bool-cases (leb c (length l))) [
    | inr e ↦ rw e (h, d, (λ key n. n), inl (ground arith))
    | inl e ↦ elim (Option-cases (evict l)) [
      | inl n ↦
          let full : Evicts l none = rw n at (evict-Evicts l) in
          rw (e, n) (h, d, (λ key m. m), inr (omega arith))
      | inr (m, n) ↦
          let less : Evicts l (some m) = rw n at (evict-Evicts l) in
          let kept : Coherent m = rw n at (All-evict _ l h) in
          let (distinct, misses) : SmallerThan l (some m) = rw n at (evict-SmallerThan l d) in
          rw (e, n)
            (
              kept,
              distinct,
              misses,
              (elim b [ inl small ↦ inl (omega arith) | inr big ↦ inr (omega arith) ]),
            )
    ]
  ]

  insert-bounded :
      (c : ℕ) (x : Entry ℕ Floats) (l : List (Entry ℕ Floats))
      → (length l < c) ⊎ (length l ≤ count_pinned l)
      → (length (x ∷ l) ≤ c) ⊎ (length (x ∷ l) ≤ suc (count_pinned (x ∷ l)))
  unfolding count_pinned
  insert-bounded c x l h = ground arith

  inserted-IsSound :
      (s : Store) (key : ℕ) (content : Floats) (pinned : Bool)
      → IsSound sources s
      → load_data sources key ≡ some content
      → find key s.order ≡ none
      → IsSound sources (record s {
        order =
            record { key = key; content = content; hits = 0; pinned = pinned }
            ∷ room s.cache_count s.order;
      })
  inserted-IsSound s key content pinned g e f =
      let (kept, distinct, misses, roomy) =
        room-Roomy s.cache_count s.order g.coherent g.distinct g.bounded in
      record {
        sourced = g.sourced;
        coherent = (e, kept);
        distinct = (misses key f, distinct);
        bounded = insert-bounded s.cache_count _ (room s.cache_count s.order) roomy;
      }

  pub insert_locked-IsSound :
      (s : Store) (key : ℕ) (content : Floats)
      → IsSound sources s
      → load_data sources key ≡ some content
      → IsSound sources (insert_locked s key content)
  insert_locked-IsSound s key content g e = elim (Option-cases (find key s.order)) [
    | inr (x, f) ↦ subst (IsSound sources) (sym (insert_locked-held s key content x f)) g
    | inl f ↦
        subst (IsSound sources) (sym (insert_locked-new s key content f))
          (inserted-IsSound s key content _ g e f)
  ]

  found-bounded :
      (c : ℕ) (l : List (Entry ℕ Floats)) (x : Entry ℕ Floats) (more : Bool)
      → find x.key l ≡ some x
      → (length l ≤ c) ⊎ (length l ≤ suc (count_pinned l))
      → let l' : List (Entry ℕ Floats) = touch (record x { pinned = x.pinned || more }) l in
        (length l' ≤ c) ⊎ (length l' ≤ suc (count_pinned l'))
  unfolding count_pinned touch
  found-bounded c l x more f b =
      ground (arith, length-remove x.key l x f, count_pinned-remove x.key l x f)

  pub found-IsSound :
      (s : Store) (key : ℕ) (x : Entry ℕ Floats)
      → IsSound sources s
      → find key s.order ≡ some x
      → IsSound sources (found s x)
  unfolding found touch
  found-IsSound s key x g f =
      let same : x.key ≡ key = find-key key s.order x f in
      let f' : find x.key s.order ≡ some x = subst (λ j. find j s.order ≡ some x) (sym same) f in
      let (distinct, gone) = remove-Distinct x.key s.order g.distinct in
      record {
        sourced = g.sourced;
        coherent = (All-find _ key s.order x g.coherent f, All-remove _ x.key s.order g.coherent);
        distinct = (gone, distinct);
        bounded = found-bounded s.cache_count s.order x _ f' g.bounded;
      }
