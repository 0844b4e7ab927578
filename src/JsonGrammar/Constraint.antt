-- ===== src/JsonGrammar/Constraint.antt =====
-- core/json_grammar.cpp: `reset`, `run_piece`, `allows`, `accept`, `give_up` and
-- `in_plain_string`. `stuck` is a run in which a call of `start_value` does not return.
use desiree_ia.Prelude.{
  ℕ, Bool, true, false, not, ◌&&◌, ◌||◌, Option, none, some, List, [], ◌∷◌, ◌++◌, take, is_empty,
  length, ◌==◌, if◌then◌else◌, Bytes,
}
use desiree_ia.JsonGrammar.{Grammar, node_at, norm, Frame, value, in_string, Config, max_configs}
use desiree_ia.JsonGrammar.Start.{can_end}
use desiree_ia.JsonGrammar.Step.{step}

-- The mutable part of the constraint.
pub record State : Type 0 where
  pub cfgs : List Config
  pub gave_up : Bool

pub data Run : Type 0 where
  alive : List Config → Run
  ended stuck : Run

abbrev pub configured : Grammar → Bool
configured g = not (is_empty g.nodes)

-- The configuration that `reset` leaves.
abbrev pub start : Grammar → Config
start g = record { stack = value g.root ∷ []; ws = 0 }

unfoldable pub reset : Grammar → State
reset g = record { cfgs = if is_empty g.nodes then [] else start g ∷ []; gave_up = false }

module _ (depth : ℕ) (g : Grammar) where
  -- One character for each configuration in turn, and the cut to `max_configs` after each.
  unfoldable pub advance_from : List Config → List Config → ℕ → Option (List Config)
  advance_from next [] ch = some next
  advance_from next (c ∷ cs) ch = elim (step depth g c ch) [
    | none ↦ none
    | some out ↦ advance_from (take max_configs (next ++ out)) cs ch
  ]

  unfoldable pub advance : List Config → ℕ → Option (List Config)
  unfolding advance_from
  advance cs ch = advance_from [] cs ch

  unfoldable pub run_piece : List Config → Bytes → Run
  unfolding advance
  run_piece cur [] = alive cur
  run_piece cur (ch ∷ piece) = elim (advance cur ch) [
    | none ↦ stuck
    | some next ↦ elim next [ [] ↦ ended | c ∷ cs ↦ run_piece (c ∷ cs) piece ]
  ]

unfoldable pub any_can_end : Grammar → List Config → Bool
unfolding can_end
any_can_end g [] = false
any_can_end g (c ∷ cs) = can_end g c || any_can_end g cs

module _ (depth : ℕ) (g : Grammar) where
  -- `none` where the call does not return.
  unfoldable pub allows : State → Bytes → Bool → Option Bool
  unfolding run_piece any_can_end
  allows s piece is_eog =
      if not (configured g) || s.gave_up
      then some true
      else if is_eog
      then some (any_can_end g s.cfgs)
      else if is_empty piece
      then some false
      else elim (run_piece depth g s.cfgs piece) [
        | alive cs ↦ some true
        | ended ↦ some false
        | stuck ↦ none
      ]

  unfoldable pub accept : State → Bytes → Option State
  unfolding run_piece
  accept s piece =
      if not (configured g) || s.gave_up || is_empty piece
      then some s
      else elim (run_piece depth g s.cfgs piece) [
        | alive cs ↦ some (record s { cfgs = cs })
        | ended ↦ some (record s { gave_up = true })
        | stuck ↦ none
      ]

  -- One `accept` for each token that is emitted.
  unfoldable pub accept_all : State → List Bytes → Option State
  accept_all s [] = some s
  accept_all s (p ∷ ps) = elim (accept s p) [ none ↦ none | some s' ↦ accept_all s' ps ]

unfoldable pub give_up : State → State
give_up s = record s { gave_up = true }

unfoldable pub constraining : Grammar → State → Bool
constraining g s = configured g && not s.gave_up

unfoldable pub is_plain : Grammar → List Frame → Bool
is_plain g (in_string node a norm ∷ rest) = elim (node_at g node).max_len [
  | none ↦ true
  | some m ↦ false
]
is_plain g _ = false

unfoldable pub one_plain : Grammar → List Config → Bool
unfolding is_plain
one_plain g (c ∷ []) = is_plain g c.stack
one_plain g _ = false

unfoldable pub in_plain_string : Grammar → State → Bool
unfolding one_plain
in_plain_string g s =
    if not (configured g) || s.gave_up || not (length s.cfgs == 1)
    then false
    else one_plain g s.cfgs
