-- ===== src/JsonGrammar/Total.antt =====
-- core/json_grammar.cpp: whole generations, and whether they get an answer at every token.
use desiree_ia.Prelude.{
  ℕ, Bool, false, none, some, List, [], ◌∷◌, ◌≡◌, Bytes, Option-cases, inl, inr,
}
use desiree_ia.JsonGrammar.{Grammar}
use desiree_ia.JsonGrammar.Constraint.{State, reset, allows, accept, accept_all}
use desiree_ia.JsonGrammar.Returns.{Returns, IsRanked, Option-bind, allows-Returns}
use desiree_ia.JsonGrammar.Reached.{SoundCfgs, reached-Sound}

module _ {depth : ℕ} (g : Grammar) {rank : ℕ → ℕ} (ranked : IsRanked g rank depth) where
  accept_all-Returns : (ps : List Bytes) (s : State) → Returns (accept_all depth g s ps)
  unfolding accept_all
  accept_all-Returns [] s = tt
  accept_all-Returns (p ∷ ps) s =
      Option-bind (accept depth g s p) _ (allows-Returns g ranked s p false).1
        (λ s'. accept_all-Returns ps s')

-- Where a rank below the bound on the recursion falls along the alternatives of unions and along
-- the "any value" nodes, a generation from its start on, whatever its tokens, reaches a state; the
-- state keeps to the limits that `SoundCfgs` lists; and `allows` returns in it for every token.
pub generation-Sound :
    {depth : ℕ} (g : Grammar) {rank : ℕ → ℕ}
    → IsRanked g rank depth
    → (ps : List Bytes)
    → (s : State) × (accept_all depth g (reset g) ps ≡ some s)
      × SoundCfgs g s.cfgs
      × ((piece : Bytes) (is_eog : Bool) → Returns (allows depth g s piece is_eog))
generation-Sound {depth} g ranked ps = elim (Option-cases (accept_all depth g (reset g) ps)) [
  | inl n ↦
      let got : Returns {A = State} none = rw n at (accept_all-Returns g ranked ps (reset g)) in
      absurd got
  | inr (s, r) ↦ (
    s,
    r,
    reached-Sound depth g ps s r,
    λ piece is_eog. (allows-Returns g ranked s piece is_eog).0,
  )
]
