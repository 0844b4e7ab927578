-- ===== src/JsonGrammar/Returns.antt =====
-- core/json_grammar.cpp, `start_value`: when its recursion over unions ends.
use desiree_ia.Prelude.{
  ℕ, zero, suc, ◌<◌, Bool, Option, none, some, List, [], ◌∷◌, length, ◌≡◌, refl, arith, All, Bytes,
}
use desiree_ia.JsonGrammar.{
  Kind, any, union, Grammar, node_at, Frame, value, in_object, in_array, in_string, in_number,
  in_literal, Config, Turn, done, again, blank, max_depth,
}
use desiree_ia.JsonGrammar.Start.{start_alts, start_kind, start_value}
use desiree_ia.JsonGrammar.Member.{step_object, step_array, step_string, step_number, step_literal}
use desiree_ia.JsonGrammar.Step.{turn, step_rounds, step}
use desiree_ia.JsonGrammar.Constraint.{
  State, Run, ended, stuck, advance_from, advance, run_piece, allows, accept,
}

abbrev pub Returns {ℓ} : {A : Type ℓ} → Option A → Type 0
Returns none = ⊥
Returns (some a) = Unit

-- The nodes that a node hands a value on to, in the same position: a rank falls along them.
abbrev pub Falls : (ℕ → ℕ) → Grammar → ℕ → Kind → Type 0
Falls rank g i union = All (λ alt. rank alt < rank i) (node_at g i).alts
Falls rank g i any =
    (rank g.any_obj < rank i)
    × (rank g.any_arr < rank i)
    × (rank g.any_str < rank i)
    × (rank g.any_num < rank i)
    × (rank g.any_lits < rank i)
Falls rank g i _ = Unit

pub record IsRanked (g : Grammar) (rank : ℕ → ℕ) (depth : ℕ) : Type 0 where
  pub falls : (i : ℕ) → Falls rank g i (node_at g i).kind
  pub below : (i : ℕ) → rank i < depth

start_alts-Returns :
    (start : ℕ → Option (List Config)) (alts : List ℕ)
    → All (λ alt. Returns (start alt)) alts
    → Returns (start_alts start alts)
unfolding start_alts
start_alts-Returns start [] h = tt
start_alts-Returns start (a ∷ rest) h = ground (arith, start_alts-Returns start rest h.1)

All-map {ℓ} :
    {A : Type ℓ} (P Q : A → Type 0) (xs : List A) → ((x : A) → P x → Q x) → All P xs → All Q xs
All-map P Q [] f h = tt
All-map P Q (x ∷ xs) f h = (f x h.0, All-map P Q xs f h.1)

module _ (rank : ℕ → ℕ) (g : Grammar) (start : ℕ → Option (List Config)) (i : ℕ)
    (goes : (j : ℕ) → rank j < rank i → Returns (start j)) where
  start_kind-Returns :
      (kind : Kind) (c : Config) (ch : ℕ)
      → Falls rank g i kind
      → Returns (start_kind kind g start c i ch)
  unfolding start_kind
  start_kind-Returns union c ch f =
      start_alts-Returns start _ (All-map _ _ (node_at g i).alts goes f)
  start_kind-Returns any c ch f = ground (
    arith,
    goes g.any_obj f.0,
    goes g.any_arr f.1,
    goes g.any_str f.2,
    goes g.any_num f.3,
    goes g.any_lits f.4,
  )
  start_kind-Returns _ c ch f = ground arith

start_value-Returns :
    (f : ℕ) (g : Grammar) (rank : ℕ → ℕ) (c : Config) (i ch : ℕ)
    → ((j : ℕ) → Falls rank g j (node_at g j).kind)
    → rank i < f
    → Returns (start_value f g c i ch)
unfolding start_value
start_value-Returns zero g rank c i ch falls h = absurd (omega arith)
start_value-Returns (suc f) g rank c i ch falls h = ground (
  arith,
  start_kind-Returns rank g (λ j. start_value f g c j ch) i
      (λ j lt. start_value-Returns f g rank c j ch falls (omega arith)) (node_at g i).kind c ch
      (falls i),
)

abbrev TurnReturns : Turn → Type 0
TurnReturns (done o) = Returns o
TurnReturns (again c) = Unit

turn-bind :
    (t : Turn) (k : Config → Option (List Config))
    → TurnReturns t
    → ((c : Config) → Returns (k c))
    → Returns {A = List Config} (elim t [ done out ↦ out | again c ↦ k c ])
turn-bind (done o) k h f = h
turn-bind (again c) k h f = f c

pub Option-bind {ℓ κ} :
    {A : Type ℓ} {B : Type κ} (o : Option A) (k : A → Option B)
    → Returns o
    → ((a : A) → Returns (k a))
    → Returns {A = B} (elim o [ none ↦ none | some a ↦ k a ])
Option-bind none k h f = h
Option-bind (some a) k h f = f a

abbrev pub Ends : Run → Type 0
Ends stuck = ⊥
Ends _ = Unit

run-bind :
    (o : Option (List Config)) (k : Config → List Config → Run)
    → Returns o
    → ((c : Config) (cs : List Config) → Ends (k c cs))
    → Ends (elim o [ none ↦ stuck | some next ↦ elim next [ [] ↦ ended | c ∷ cs ↦ k c cs ] ])
run-bind none k h f = h
run-bind (some []) k h f = tt
run-bind (some (c ∷ cs)) k h f = f c cs

union-none :
    (f : ℕ) (g : Grammar) (c : Config) (i ch : ℕ) (alts : List ℕ)
    → (node_at g i).kind ≡ union
    → (node_at g i).alts ≡ i ∷ alts
    → start_value f g c i ch ≡ none
    → start_kind (node_at g i).kind g (λ alt. start_value f g c alt ch) c i ch ≡ none
unfolding start_kind start_alts
union-none f g c i ch alts k a h = rw (k, start_kind) (rw (a, start_alts) (rw (h, start_alts)))

module _ {depth : ℕ} (g : Grammar) {rank : ℕ → ℕ} (ranked : IsRanked g rank depth) where
  turn-Returns : (stack : List Frame) (ws ch : ℕ) → TurnReturns (turn depth g stack ws ch)
  unfolding turn step_object step_array step_string step_number step_literal blank
  turn-Returns (value node ∷ rest) ws ch = ground (
    arith,
    start_value-Returns depth g rank (record { stack = rest; ws = 0 }) node ch ranked.falls
        (ranked.below node),
  )
  turn-Returns [] ws ch = ground arith
  turn-Returns (in_object node used st ∷ rest) ws ch = ground arith
  turn-Returns (in_array node a st ∷ rest) ws ch = ground arith
  turn-Returns (in_string node a st ∷ rest) ws ch = ground arith
  turn-Returns (in_number node st ∷ rest) ws ch = ground arith
  turn-Returns (in_literal node lo hi pos ∷ rest) ws ch = ground arith

  step_rounds-Returns :
      (rounds : ℕ) (c : Config) (ch : ℕ) → Returns (step_rounds depth g (some []) rounds c ch)
  unfolding step_rounds
  step_rounds-Returns zero c ch = tt
  step_rounds-Returns (suc rounds) c ch =
      turn-bind (turn depth g c.stack c.ws ch) _ (turn-Returns c.stack c.ws ch)
        (λ c'. step_rounds-Returns rounds c' ch)

  step-Returns : (c : Config) (ch : ℕ) → Returns (step depth g c ch)
  unfolding step
  step-Returns c ch = step_rounds-Returns 8 c ch

  pub advance_from-Returns :
      (next cs : List Config) (ch : ℕ) → Returns (advance_from depth g next cs ch)
  unfolding advance_from
  advance_from-Returns next [] ch = tt
  advance_from-Returns next (c ∷ cs) ch =
      Option-bind (step depth g c ch) _ (step-Returns c ch) (λ out. advance_from-Returns _ cs ch)

  pub run_piece-Ends : (piece : Bytes) (cs : List Config) → Ends (run_piece depth g cs piece)
  unfolding run_piece advance
  run_piece-Ends [] cs = tt
  run_piece-Ends (ch ∷ piece) cs =
      run-bind (advance depth g cs ch) _ (advance_from-Returns [] cs ch)
        (λ c next. run_piece-Ends piece (c ∷ next))

  accept-Returns : (s : State) (piece : Bytes) → Returns (accept depth g s piece)
  unfolding accept
  accept-Returns s piece = ground (arith, run_piece-Ends piece s.cfgs)

  -- Where a rank below the bound falls along the alternatives of unions and along the "any value"
  -- nodes, every question about a token and every acceptance of one comes back with an answer.
  pub allows-Returns :
      (s : State) (piece : Bytes) (is_eog : Bool)
      → Returns (allows depth g s piece is_eog) × Returns (accept depth g s piece)
  unfolding allows
  allows-Returns s piece is_eog =
      (ground (arith, run_piece-Ends piece s.cfgs), accept-Returns s piece)

-- A union that stands first among its own alternatives: no bound on the recursion is enough, so
-- the C++ call never returns.
pub start_value_diverges :
    (f : ℕ) (g : Grammar) (c : Config) (i ch : ℕ) (alts : List ℕ)
    → (node_at g i).kind ≡ union
    → (node_at g i).alts ≡ i ∷ alts
    → length c.stack < max_depth
    → start_value f g c i ch ≡ none
unfolding start_value
start_value_diverges zero g c i ch alts k a h = refl
start_value_diverges (suc f) g c i ch alts k a h =
    ground (arith, union-none f g c i ch alts k a (start_value_diverges f g c i ch alts k a h))
