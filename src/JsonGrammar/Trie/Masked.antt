-- ===== src/JsonGrammar/Trie/Masked.antt =====
-- core/json_grammar.cpp, `mask`: the marks, and what `allows` says of each token.
use mathlib.Core.Path.{subst}
use desiree_ia.Prelude.{
  ℕ, zero, suc, ◌≤◌, ◌<◌, Bool, true, false, Option, none, some, List, [], ◌∷◌, ◌≡◌, refl, ap, sym,
  ◌∙◌, length, get_or, get_elem?, Bytes, arith, Bool-cases, Option-cases, inl, inr,
}
use desiree_ia.JsonGrammar.{Grammar, Config}
use desiree_ia.JsonGrammar.Constraint.{
  State, Run, alive, ended, stuck, advance, run_piece, allows, constraining,
}
use desiree_ia.JsonGrammar.Returns.{Returns, IsRanked, Ends, run_piece-Ends, advance_from-Returns}
use desiree_ia.JsonGrammar.Trie.{Trie, leaf, node, is_included, build, mark, walk, mask}
use desiree_ia.JsonGrammar.Trie.Stored.{build-stored, stored-build_only}
use desiree_ia.JsonGrammar.Trie.Walked.{IsAlive, hit, walk-hit, hit-stored, stored-hit}

walk-Returns :
    {depth : ℕ} (g : Grammar) {rank : ℕ → ℕ}
    → IsRanked g rank depth
    → (t : Trie) (cur : List Config) (keep : List Bool) → Returns (walk depth g t cur keep)
unfolding walk advance
walk-Returns g ranked leaf cur keep = tt
walk-Returns {depth} g ranked (node b ts c s) cur keep =
    elim (Option-cases (advance depth g cur b)) [
      | inl n ↦
          let got : Returns {A = List Config} none =
            rw n at (advance_from-Returns g ranked [] cur b) in
          absurd got
      | inr ([], n) ↦ ground (arith, walk-Returns g ranked s cur keep)
      | inr (x ∷ xs, n) ↦ elim (Option-cases (walk depth g c (x ∷ xs) (mark ts keep))) [
        | inl m ↦
            let got : Returns {A = List Bool} none =
              rw m at (walk-Returns g ranked c (x ∷ xs) (mark ts keep)) in
            absurd got
        | inr (k, m) ↦ ground (arith, walk-Returns g ranked s cur k)
      ]
    ]

get_elem?-lt {ℓ} :
    {A : Type ℓ} (xs : List A) (j : ℕ) (a : A) → get_elem? xs j ≡ some a → j < length xs
get_elem?-lt [] j a h = cc
get_elem?-lt (x ∷ xs) zero a h = omega arith
get_elem?-lt (x ∷ xs) (suc j) a h = omega (arith, get_elem?-lt xs j a h)

mask-walk :
    (depth : ℕ) (g : Grammar) (s : State) (t : Trie) (keep : List Bool)
    → constraining g s ≡ true
    → mask depth g s t keep ≡ walk depth g t s.cfgs keep
unfolding mask constraining
mask-walk depth g s leaf keep h = unfold walk in ground arith
mask-walk depth g s (node b ts c r) keep h = ground arith

-- What `allows` says after the run over a piece.
abbrev answer : Run → Option Bool
answer (alive cs) = some true
answer ended = some false
answer stuck = none

answer_lem :
    (r : Run) (b : Bool)
    → Ends r
    → (IsAlive r → b ≡ true)
    → (b ≡ true → IsAlive r)
    → answer r ≡ some b
answer_lem (alive cs) b e f h = ap some (sym (f tt))
answer_lem ended true e f h = absurd (h refl)
answer_lem ended false e f h = refl
answer_lem stuck b e f h = absurd e

allows-answer :
    (depth : ℕ) (g : Grammar) (s : State) (x : ℕ) (w : Bytes)
    → constraining g s ≡ true
    → allows depth g s (x ∷ w) false ≡ answer (run_piece depth g s.cfgs (x ∷ w))
unfolding allows constraining
allows-answer depth g s x w h = ground arith

module _ (depth : ℕ) (g : Grammar) (cur : List Config) (pieces : List Bytes)
    (include : List Bool) where
  hit_unless_dead :
      (j x : ℕ) (w : Bytes)
      → get_elem? pieces j ≡ some (x ∷ w)
      → hit depth g (build pieces include) cur j ≡ true
      → IsAlive (run_piece depth g cur (x ∷ w))
  hit_unless_dead j x w g' h =
      let (y, v, st, a) = hit-stored depth g (build pieces include) cur j h in
      let found = (stored-build_only pieces include y v j st).0 in
      let same : y ∷ v ≡ x ∷ w = cc in subst (λ p. IsAlive (run_piece depth g cur p)) same a

  hit_excluded :
      (j : ℕ) → is_included include j ≡ false → hit depth g (build pieces include) cur j ≡ false
  hit_excluded j e = elim (Bool-cases (hit depth g (build pieces include) cur j)) [
    | inr no' ↦ no'
    | inl h ↦
        let (y, v, st, a) = hit-stored depth g (build pieces include) cur j h in
        let found = (stored-build_only pieces include y v j st).1 in cc
  ]

-- Where a generation is constrained, a rank falls along the grammar, and there is a byte of `keep`
-- for each token: `mask` over the trie of the pieces returns. A byte that was 0 ends as what
-- `allows` says of its token, where the token is included and its piece not empty; the bytes of
-- tokens that are not included stay as they were.
pub mask-allows :
    {depth : ℕ} (g : Grammar) {rank : ℕ → ℕ}
    → IsRanked g rank depth
    → (s : State) (pieces : List Bytes) (include keep : List Bool) → constraining g s ≡ true
    → length pieces ≤ length keep
    → (keep' : List Bool) × (mask depth g s (build pieces include) keep ≡ some keep')
      × (length keep' ≡ length keep)
      × ((j x : ℕ) (w : Bytes)
          → get_elem? pieces j ≡ some (x ∷ w)
          → is_included include j ≡ true
          → get_or keep j false ≡ false
          → allows depth g s (x ∷ w) false ≡ some (get_or keep' j false))
      × ((j : ℕ)
          → j < length keep
          → is_included include j ≡ false
          → get_or keep' j false ≡ get_or keep j false)
mask-allows {depth} g ranked s pieces include keep on sized =
    elim (Option-cases (walk depth g (build pieces include) s.cfgs keep)) [
      | inl n ↦
          let got : Returns {A = List Bool} none =
            rw n at (walk-Returns g ranked (build pieces include) s.cfgs keep) in
          absurd got
      | inr (keep', n) ↦
          let (same, marks) = walk-hit depth g (build pieces include) s.cfgs keep keep' n in
          (
            keep',
            mask-walk depth g s (build pieces include) keep on ∙ n,
            same,
            λ j x w e i z.
                let within : j < length keep = omega (arith, get_elem?-lt pieces j (x ∷ w) e) in
                let kept : get_or keep' j false ≡ hit depth g (build pieces include) s.cfgs j =
                  ground (arith, marks j within) in
                allows-answer depth g s x w on
                ∙ answer_lem (run_piece depth g s.cfgs (x ∷ w)) (get_or keep' j false)
                    (run_piece-Ends g ranked (x ∷ w) s.cfgs)
                    (λ a.
                      kept
                      ∙ stored-hit depth g (build pieces include) s.cfgs x w j
                          (build-stored pieces include x w j e i) a)
                    (λ h. hit_unless_dead depth g s.cfgs pieces include j x w e (sym kept ∙ h)),
            λ j within e.
                ground (arith, marks j within, hit_excluded depth g s.cfgs pieces include j e),
          )
    ]
