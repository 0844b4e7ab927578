-- ===== src/JsonGrammar/Compile/Sorted.antt =====
-- core/json_grammar.cpp: what sorting leaves of a list of texts.
use desiree_ia.Prelude.{
  suc, true, false, List, [], ◌∷◌, map, length, ◌≡◌, refl, sym, ap, ◌∙◌, arith, equal, equal_iff,
  All, Bool-cases, inl, inr, Bytes,
}
use mathlib.Core.Path.{subst}
use desiree_ia.JsonGrammar.Compile.Order.{less, insert, sort_by, sort, unique_after, unique}

-- No text before one that it is greater than; each text before a greater one.
abbrev pub Ascends : List Bytes → Type 0
Ascends [] = Unit
Ascends (s ∷ []) = Unit
Ascends (s ∷ t ∷ ts) = (less t s ≡ false) × Ascends (t ∷ ts)

abbrev pub Rises : List Bytes → Type 0
Rises [] = Unit
Rises (s ∷ []) = Unit
Rises (s ∷ t ∷ ts) = (less s t ≡ true) × Rises (t ∷ ts)

less_asym : (s t : Bytes) → less s t ≡ true → less t s ≡ false
unfolding less
less_asym [] [] h = refl
less_asym [] (d ∷ t) h = refl
less_asym (c ∷ s) [] h = cc
less_asym (c ∷ s) (d ∷ t) h = ground (arith, less_asym s t)

less_connex : (s t : Bytes) → equal s t ≡ false → less t s ≡ false → less s t ≡ true
unfolding less equal
less_connex [] [] h k = cc
less_connex [] (d ∷ t) h k = refl
less_connex (c ∷ s) [] h k = cc
less_connex (c ∷ s) (d ∷ t) h k = ground (arith, less_connex s t)

module _ {A : Type 0} (key : A → Bytes) where
  -- `y`, and then a list that was ascending after `y` with `x` put into it.
  Ascends-cons_insert :
      (x y : A) (ys : List A)
      → less (key x) (key y) ≡ false
      → Ascends (key y ∷ map key ys)
      → Ascends (map key (insert key x ys))
      → Ascends (key y ∷ map key (insert key x ys))
  unfolding insert
  Ascends-cons_insert x y [] h a b = (h, tt)
  Ascends-cons_insert x y (z ∷ ys) h a b = elim (Bool-cases (less (key z) (key x))) [
    | inl e ↦ rw (e, insert) (a.0, rw (e, insert) at b)
    | inr e ↦ rw (e, insert) (h, rw (e, insert) at b)
  ]

  Ascends-tail : (s : Bytes) (ts : List Bytes) → Ascends (s ∷ ts) → Ascends ts
  Ascends-tail s [] a = tt
  Ascends-tail s (t ∷ ts) a = a.1

  insert-Ascends :
      (x : A) (ys : List A) → Ascends (map key ys) → Ascends (map key (insert key x ys))
  unfolding insert
  insert-Ascends x [] a = tt
  insert-Ascends x (y ∷ ys) a = elim (Bool-cases (less (key y) (key x))) [
    | inl e ↦
        let rest = insert-Ascends x ys (Ascends-tail (key y) (map key ys) a) in
        rw (e, insert) (Ascends-cons_insert x y ys (less_asym (key y) (key x) e) a rest)
    | inr e ↦ rw (e, insert) (e, a)
  ]

  pub sort_by-Ascends : (xs : List A) → Ascends (map key (sort_by key xs))
  unfolding sort_by
  sort_by-Ascends [] = tt
  sort_by-Ascends (x ∷ xs) = insert-Ascends x (sort_by key xs) (sort_by-Ascends xs)

  length-insert : (x : A) (ys : List A) → length (insert key x ys) ≡ suc (length ys)
  unfolding insert
  length-insert x [] = refl
  length-insert x (y ∷ ys) = elim (Bool-cases (less (key y) (key x))) [
    | inl e ↦ rw (e, insert) (ap (λ n. suc n) (length-insert x ys))
    | inr e ↦ rw (e, insert) refl
  ]

  pub length-sort_by : (xs : List A) → length (sort_by key xs) ≡ length xs
  unfolding sort_by
  length-sort_by [] = refl
  length-sort_by (x ∷ xs) = length-insert x (sort_by key xs) ∙ ap (λ n. suc n) (length-sort_by xs)

  module _ (P : A → Type 0) where
    insert-All : (x : A) (ys : List A) → P x → All P ys → All P (insert key x ys)
    unfolding insert
    insert-All x [] p a = (p, tt)
    insert-All x (y ∷ ys) p a = elim (Bool-cases (less (key y) (key x))) [
      | inl e ↦ rw (e, insert) (a.0, insert-All x ys p a.1)
      | inr e ↦ rw (e, insert) (p, a)
    ]

    pub sort_by-All : (xs : List A) → All P xs → All P (sort_by key xs)
    unfolding sort_by
    sort_by-All [] a = tt
    sort_by-All (x ∷ xs) a = insert-All x (sort_by key xs) a.0 (sort_by-All xs a.1)

map_same : (ts : List Bytes) → map (λ s. s) ts ≡ ts
map_same [] = refl
map_same (t ∷ ts) = ap (λ l. t ∷ l) (map_same ts)

unique_after-Rises :
    (s : Bytes) (ts : List Bytes) → Ascends (s ∷ ts) → Rises (s ∷ unique_after s ts)
unfolding unique_after
unique_after-Rises s [] a = tt
unique_after-Rises s (t ∷ ts) a = elim (Bool-cases (equal s t)) [
  | inl e ↦
      let same : t ≡ s = sym ((equal_iff s t).0 e) in
      rw (e, unique_after) (unique_after-Rises s ts (subst (λ r. Ascends (r ∷ ts)) same a.1))
  | inr e ↦ rw (e, unique_after) (less_connex s t e a.0, unique_after-Rises t ts a.1)
]

pub unique-sort-Rises : (ts : List Bytes) → Rises (unique (sort ts))
unfolding unique
unique-sort-Rises ts =
    rises (sort ts) (subst Ascends (map_same (sort ts)) (sort_by-Ascends (λ s. s) ts))
  where
    rises : (l : List Bytes) → Ascends l → Rises (unique l)
    rises [] a = tt
    rises (s ∷ l) a = unique_after-Rises s l a
