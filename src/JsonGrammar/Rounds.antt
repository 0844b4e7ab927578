-- ===== src/JsonGrammar/Rounds.antt =====
-- core/json_grammar.cpp, `step`: the loop that counts `guard` to 8, and how many rounds it needs.
use desiree_ia.Prelude.{ℕ, suc, Option, some, List, [], ◌∷◌, ◌≡◌, refl, arith, All}
use desiree_ia.JsonGrammar.{
  Grammar, Frame, value, in_object, in_array, in_string, in_number, in_literal, ObjectState,
  ArrayState, Config, Turn, done, again, blank,
}
use desiree_ia.JsonGrammar.Member.{step_object, step_array, step_string, step_number, step_literal}
use desiree_ia.JsonGrammar.Step.{turn, step_rounds, step}
use desiree_ia.JsonGrammar.Bounds.{Waits, IsSound, SoundStack}

-- The tops that deal with any character in one round.
abbrev Settles : List Frame → Type 0
Settles [] = Unit
Settles (value node ∷ rest) = Unit
Settles (in_object node used st ∷ rest) = Unit
Settles (in_array node a ArrayState.comma ∷ rest) = Unit
Settles _ = ⊥

abbrev IsDone : Turn → Type 0
IsDone (done out) = Unit
IsDone (again c) = ⊥

abbrev SettlesAfter : Turn → Type 0
SettlesAfter (done out) = Unit
SettlesAfter (again c) = Settles c.stack

Waits-Settles : (g : Grammar) (rest : List Frame) → All (Waits g) rest → Settles rest
Waits-Settles g [] w = tt
Waits-Settles g (in_object node used ObjectState.comma ∷ rest) w = tt
Waits-Settles g (in_array node a ArrayState.comma ∷ rest) w = tt
Waits-Settles g (_ ∷ rest) w = absurd w.0

module _ (depth : ℕ) (g : Grammar) (ws ch : ℕ) where
  turn-IsDone : (stack : List Frame) → Settles stack → IsDone (turn depth g stack ws ch)
  unfolding turn step_object step_array blank
  turn-IsDone [] s = ground arith
  turn-IsDone (value node ∷ rest) s = ground arith
  turn-IsDone (in_object node used st ∷ rest) s = ground arith
  turn-IsDone (in_array node a ArrayState.comma ∷ rest) s = ground arith
  turn-IsDone (_ ∷ rest) s = absurd s

  turn-SettlesAfter :
      (stack : List Frame) → SoundStack g stack → SettlesAfter (turn depth g stack ws ch)
  unfolding turn step_object step_array step_string step_number step_literal blank
  turn-SettlesAfter [] s = ground arith
  turn-SettlesAfter (value node ∷ rest) s = ground arith
  turn-SettlesAfter (in_object node used st ∷ rest) s = ground arith
  turn-SettlesAfter (in_array node a st ∷ rest) s = ground arith
  turn-SettlesAfter (in_string node a st ∷ rest) s = ground arith
  turn-SettlesAfter (in_number node st ∷ rest) s = ground (arith, Waits-Settles g rest s.1)
  turn-SettlesAfter (in_literal node lo hi pos ∷ rest) s = ground (arith, Waits-Settles g rest s.1)

  rounds_of_done :
      (rest rest' : Config → Option (List Config)) (stack : List Frame)
      → IsDone (turn depth g stack ws ch)
      → elim (turn depth g stack ws ch) [ done out ↦ out | again c ↦ rest c ]
        ≡ elim (turn depth g stack ws ch) [ done out ↦ out | again c ↦ rest' c ]
  rounds_of_done rest rest' stack h = ground arith

module _ (depth : ℕ) (g : Grammar) (ch : ℕ) (unmet unmet' : Option (List Config)) where
  one_round :
      (n m : ℕ) (c : Config)
      → Settles c.stack
      → step_rounds depth g unmet (suc n) c ch ≡ step_rounds depth g unmet' (suc m) c ch
  unfolding step_rounds
  one_round n m c s =
      rounds_of_done depth g c.ws ch _ _ c.stack (turn-IsDone depth g c.ws ch c.stack s)

  two_rounds :
      (n m : ℕ) (t : Turn)
      → SettlesAfter t
      → elim t [ done out ↦ out | again c ↦ step_rounds depth g unmet (suc n) c ch ]
        ≡ elim t [ done out ↦ out | again c ↦ step_rounds depth g unmet' (suc m) c ch ]
  two_rounds n m (done out) s = refl
  two_rounds n m (again c) s = one_round n m c s

-- In a configuration within the limits two rounds deal with any character: with any bound from two
-- on, and whatever the loop comes to where the bound is met, it gives what `step` gives, so that
-- the bound of eight that the code sets is never met.
pub step_rounds-step :
    (depth : ℕ) (g : Grammar) (ch : ℕ) (unmet : Option (List Config)) (n : ℕ) (c : Config)
    → IsSound g c
    → step_rounds depth g unmet (suc (suc n)) c ch ≡ step depth g c ch
unfolding step step_rounds
step_rounds-step depth g ch unmet n c s =
    two_rounds depth g ch unmet (some []) n 6 (turn depth g c.stack c.ws ch)
      (turn-SettlesAfter depth g c.ws ch c.stack s.stacked)
