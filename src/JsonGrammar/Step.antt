-- ===== src/JsonGrammar/Step.antt =====
-- core/json_grammar.cpp, `step`: one character for one configuration. The C++ loop makes eight
-- rounds at most; a round is a `Turn`. `start_value` is called with `depth` as its bound.
use desiree_ia.Prelude.{ℕ, zero, suc, Option, some, List, [], ◌∷◌, ltb, ◌&&◌, if◌then◌else◌}
use desiree_ia.JsonGrammar.{
  Grammar, Frame, value, in_object, in_array, in_string, in_number, in_literal, Config, Turn, done,
  again, push, dead, is_ws, blank, max_blanks,
}
use desiree_ia.JsonGrammar.Start.{start_value}
use desiree_ia.JsonGrammar.Member.{step_object, step_array, step_string, step_number, step_literal}

module _ (depth : ℕ) (g : Grammar) where
  -- The document is complete: blanks only.
  unfoldable pub after_document : ℕ → ℕ → Turn
  after_document ws ch =
      if is_ws ch && ltb ws max_blanks then push (record { stack = []; ws = suc ws }) else dead

  -- K_VALUE
  unfoldable pub step_value : List Frame → ℕ → ℕ → ℕ → Turn
  step_value rest ws node ch =
      if is_ws ch
      then blank (record { stack = value node ∷ rest; ws = ws })
      else done (start_value depth g (record { stack = rest; ws = 0 }) node ch)

  unfoldable pub turn : List Frame → ℕ → ℕ → Turn
  unfolding after_document step_value
  turn [] ws ch = after_document ws ch
  turn (value node ∷ rest) ws ch = step_value rest ws node ch
  turn (in_object node used st ∷ rest) ws ch = step_object g rest ws node used st ch
  turn (in_array node a st ∷ rest) ws ch = step_array g rest ws node a st ch
  turn (in_string node a st ∷ rest) ws ch = step_string g rest ws node a st ch
  turn (in_number node st ∷ rest) ws ch = step_number g rest ws node st ch
  turn (in_literal node lo hi pos ∷ rest) ws ch = step_literal g rest ws node lo hi pos ch

  -- The loop with a bound on its rounds, and what it comes to where the bound is met.
  unfoldable pub step_rounds : Option (List Config) → ℕ → Config → ℕ → Option (List Config)
  unfolding turn
  step_rounds unmet zero c ch = unmet
  step_rounds unmet (suc rounds) c ch = elim (turn c.stack c.ws ch) [
    | done out ↦ out
    | again c' ↦ step_rounds unmet rounds c' ch
  ]

  -- The code falls out of the loop after 8 rounds with nothing in `out`.
  unfoldable pub step : Config → ℕ → Option (List Config)
  unfolding step_rounds
  step = step_rounds (some []) 8
