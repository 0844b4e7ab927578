-- ===== src/JsonGrammar/Trie/Walked.antt =====
-- core/json_grammar.cpp, `walk`: the tokens that it marks.
use desiree_ia.Prelude.{
  ℕ, zero, suc, ◌<◌, Bool, true, false, ◌||◌, none, some, List, [], ◌∷◌, ◌≡◌, refl, ap, ◌∙◌, length,
  get_or, set, ◌==◌, Bytes, arith, Bool-cases, Option-cases, inl, inr,
}
use desiree_ia.JsonGrammar.{Grammar, Config}
use desiree_ia.JsonGrammar.Constraint.{Run, alive, advance, run_piece}
use desiree_ia.JsonGrammar.Trie.{Trie, leaf, node, mark, walk}
use desiree_ia.JsonGrammar.Trie.Stored.{elem, stored}

length-set {ℓ} : {A : Type ℓ} (xs : List A) (i : ℕ) (v : A) → length (set xs i v) ≡ length xs
length-set [] i v = refl
length-set (x ∷ xs) zero v = refl
length-set (x ∷ xs) (suc i) v = ap suc (length-set xs i v)

get_or-set-true :
    (keep : List Bool) (t j : ℕ)
    → j < length keep
    → get_or (set keep t true) j false ≡ (get_or keep j false || t == j)
get_or-set-true [] t j h = absurd (omega arith)
get_or-set-true (k ∷ keep) zero zero h = ground arith
get_or-set-true (k ∷ keep) zero (suc j) h = ground arith
get_or-set-true (k ∷ keep) (suc t) zero h = ground arith
get_or-set-true (k ∷ keep) (suc t) (suc j) h = ground (arith, get_or-set-true keep t j)

length-mark : (ts : List ℕ) (keep : List Bool) → length (mark ts keep) ≡ length keep
unfolding mark
length-mark [] keep = refl
length-mark (t ∷ ts) keep = length-mark ts (set keep t true) ∙ length-set keep t true

get_or-mark :
    (ts : List ℕ) (keep : List Bool) (j : ℕ)
    → j < length keep
    → get_or (mark ts keep) j false ≡ (get_or keep j false || elem j ts)
unfolding mark
get_or-mark [] keep j h = ground arith
get_or-mark (t ∷ ts) keep j h =
    ground
      (arith, length-set keep t true, get_or-mark ts (set keep t true) j, get_or-set-true keep t j)

abbrev pub IsAlive : Run → Type 0
IsAlive (alive cs) = Unit
IsAlive _ = ⊥

module _ (depth : ℕ) (g : Grammar) where
  -- A walk over these children marks the token.
  pub hit : Trie → List Config → ℕ → Bool
  hit leaf cur j = false
  hit (node b ts c s) cur j =
      let below : Bool = elim (advance depth g cur b) [
        | none ↦ false
        | some next ↦ elim next [ [] ↦ false | x ∷ xs ↦ elem j ts || hit c (x ∷ xs) j ]
      ] in
      below || hit s cur j

  pub walk-hit :
      (t : Trie) (cur : List Config) (keep keep' : List Bool)
      → walk depth g t cur keep ≡ some keep'
      → (length keep' ≡ length keep)
        × ((j : ℕ) → j < length keep → get_or keep' j false ≡ (get_or keep j false || hit t cur j))
  unfolding walk hit
  walk-hit leaf cur keep keep' w = (ground arith, λ j h. ground arith)
  walk-hit (node b ts c s) cur keep keep' w = elim (Option-cases (advance depth g cur b)) [
    | inl n ↦ absurd (ground arith)
    | inr ([], n) ↦
        let rest = walk-hit s cur keep keep' (ground arith) in
        (rest.0, λ j h. ground (arith, rest.1 j h))
    | inr (x ∷ xs, n) ↦ elim (Option-cases (walk depth g c (x ∷ xs) (mark ts keep))) [
      | inl m ↦ absurd (ground arith)
      | inr (k, m) ↦
          let low = walk-hit c (x ∷ xs) (mark ts keep) k m in
          let rest = walk-hit s cur k keep' (ground arith) in
          (
            rest.0 ∙ low.0 ∙ length-mark ts keep,
            λ j h.
                ground
                  (arith, low.1 j, rest.1 j, get_or-mark ts keep j h, length-mark ts keep, low.0),
          )
    ]
  ]

  pub hit-stored :
      (t : Trie) (cur : List Config) (j : ℕ)
      → hit t cur j ≡ true
      → (x : ℕ) × (w : Bytes) × (stored t (x ∷ w) j ≡ true)
        × IsAlive (run_piece depth g cur (x ∷ w))
  unfolding hit stored run_piece
  hit-stored leaf cur j h = cc
  hit-stored (node b ts c s) cur j h = elim (Bool-cases (hit s cur j)) [
    | inl later ↦ let (x, w, st, a) = hit-stored s cur j later in (x, w, ground arith, a)
    | inr no' ↦ elim (Option-cases (advance depth g cur b)) [
      | inl n ↦ absurd (ground arith)
      | inr ([], n) ↦ absurd (ground arith)
      | inr (y ∷ ys, n) ↦ elim (Bool-cases (elem j ts)) [
        | inl here ↦ (b, [], ground arith, ground arith)
        | inr not_here ↦
            let (x, w, st, a) = hit-stored c (y ∷ ys) j (ground arith) in
            (b, x ∷ w, ground arith, ground arith)
      ]
    ]
  ]

  pub stored-hit :
      (t : Trie) (cur : List Config) (x : ℕ) (w : Bytes) (j : ℕ)
      → stored t (x ∷ w) j ≡ true
      → IsAlive (run_piece depth g cur (x ∷ w))
      → hit t cur j ≡ true
  unfolding hit stored run_piece
  stored-hit leaf cur x w j h a = cc
  stored-hit (node b ts c s) cur x [] j h a = ground (arith, stored-hit s cur x [] j)
  stored-hit (node b ts c s) cur x (y ∷ w) j h a = elim (Bool-cases (stored s (x ∷ y ∷ w) j)) [
    | inl later ↦ ground (arith, stored-hit s cur x (y ∷ w) j later a)
    | inr no' ↦ elim (Option-cases (advance depth g cur b)) [
      | inl n ↦ ground arith
      | inr ([], n) ↦ ground arith
      | inr (z ∷ zs, n) ↦ ground (arith, stored-hit c (z ∷ zs) y w j)
    ]
  ]
