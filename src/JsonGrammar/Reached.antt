-- ===== src/JsonGrammar/Reached.antt =====
-- core/json_grammar.cpp, `accept`: the limits in the states that a generation reaches.
use desiree_ia.Prelude.{
  ℕ, ◌≤◌, Option, none, some, List, [], ◌∷◌, ◌++◌, length, ◌≡◌, arith, inl, inr, All, All-append,
  All-take, length-take-le, Bytes, take, is_empty, Bool-cases,
}
use desiree_ia.JsonGrammar.{Grammar, Config, max_configs}
use desiree_ia.JsonGrammar.Step.{step}
use desiree_ia.JsonGrammar.Constraint.{
  State, Run, alive, ended, stuck, reset, advance_from, advance, run_piece, accept, accept_all,
}
use desiree_ia.JsonGrammar.Bounds.{IsSound, SoundAll, step-Sound}

abbrev pub SoundCfgs : Grammar → List Config → Type 0
SoundCfgs g cs = All (IsSound g) cs × (length cs ≤ max_configs)

abbrev SoundOut : Grammar → Option (List Config) → Type 0
SoundOut g none = Unit
SoundOut g (some cs) = SoundCfgs g cs

abbrev SoundRun : Grammar → Run → Type 0
SoundRun g (alive cs) = SoundCfgs g cs
SoundRun g _ = Unit

abbrev SoundState : Grammar → Option State → Type 0
SoundState g none = Unit
SoundState g (some s) = SoundCfgs g s.cfgs

out-bind :
    (g : Grammar) (o : Option (List Config)) (k : List Config → Option (List Config))
    → SoundAll g o
    → ((cs : List Config) → All (IsSound g) cs → SoundOut g (k cs))
    → SoundOut g (elim o [ none ↦ none | some cs ↦ k cs ])
out-bind g none k h f = tt
out-bind g (some cs) k h f = f cs h

run-bind :
    (g : Grammar) (o : Option (List Config)) (k : Config → List Config → Run)
    → SoundOut g o
    → ((c : Config) (cs : List Config) → SoundCfgs g (c ∷ cs) → SoundRun g (k c cs))
    → SoundRun g (elim o [ none ↦ stuck | some next ↦ elim next [ [] ↦ ended | c ∷ cs ↦ k c cs ] ])
run-bind g none k h f = tt
run-bind g (some []) k h f = tt
run-bind g (some (c ∷ cs)) k h f = f c cs h

state-bind :
    (g : Grammar) (o : Option State) (k : State → Option State)
    → SoundState g o
    → ((s : State) → SoundCfgs g s.cfgs → SoundState g (k s))
    → SoundState g (elim o [ none ↦ none | some s ↦ k s ])
state-bind g none k h f = tt
state-bind g (some s) k h f = f s h

module _ (depth : ℕ) (g : Grammar) where
  advance_from-Sound :
      (next cs : List Config) (ch : ℕ)
      → SoundCfgs g next
      → All (IsSound g) cs
      → SoundOut g (advance_from depth g next cs ch)
  unfolding advance_from
  advance_from-Sound next [] ch n s = n
  advance_from-Sound next (c ∷ cs) ch n s =
      out-bind g (step depth g c ch) _ (step-Sound depth g c ch s.0) (λ out h.
        advance_from-Sound (take max_configs (next ++ out)) cs ch
          (
            All-take (IsSound g) max_configs (next ++ out) (All-append (IsSound g) next out n.0 h),
            length-take-le max_configs (next ++ out),
          )
          s.1)

  run_piece-Sound :
      (piece : Bytes) (cs : List Config) → SoundCfgs g cs → SoundRun g (run_piece depth g cs piece)
  unfolding run_piece advance
  run_piece-Sound [] cs s = s
  run_piece-Sound (ch ∷ piece) cs s =
      run-bind g (advance depth g cs ch) _ (advance_from-Sound [] cs ch (tt, omega arith) s.0)
        (λ c next h. run_piece-Sound piece (c ∷ next) h)

  accept-Sound :
      (s : State) (piece : Bytes) → SoundCfgs g s.cfgs → SoundState g (accept depth g s piece)
  unfolding accept
  accept-Sound s piece h = ground (arith, run_piece-Sound piece s.cfgs h)

  accept_all-Sound :
      (ps : List Bytes) (s : State) → SoundCfgs g s.cfgs → SoundState g (accept_all depth g s ps)
  unfolding accept_all
  accept_all-Sound [] s h = h
  accept_all-Sound (p ∷ ps) s h =
      state-bind g (accept depth g s p) _ (accept-Sound s p h) (λ s' h'. accept_all-Sound ps s' h')

  reset-Sound : SoundCfgs g (reset g).cfgs
  unfolding reset
  reset-Sound = elim (Bool-cases (is_empty g.nodes)) [
    | inl e ↦ rw e (tt, omega arith)
    | inr e ↦
        rw e ((record { stacked = (tt, tt, omega arith); blanks = omega arith }, tt), omega arith)
  ]

-- After any tokens from the start of a generation on there are at most 48 configurations. In each
-- of them no more than 8 blanks were counted in a row; the stack has at most 64 frames, or 65
-- where the top one is a value still to begin; every frame below the top one is an object or an
-- array that waits for a comma or its bracket; and the counts of items and characters keep to
-- `max_items` and `max_len`, strictly where another one is due.
pub reached-Sound :
    (depth : ℕ) (g : Grammar) (ps : List Bytes) (s : State)
    → accept_all depth g (reset g) ps ≡ some s
    → SoundCfgs g s.cfgs
reached-Sound depth g ps s e = rw e at (accept_all-Sound depth g ps (reset g) (reset-Sound depth g))
