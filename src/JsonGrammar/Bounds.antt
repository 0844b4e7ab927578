-- ===== src/JsonGrammar/Bounds.antt =====
-- core/json_grammar.cpp: an invariant of the configurations that are reached: the limits on the
-- depth and on blanks, the counts of items and characters, and which frames lie below others.
use desiree_ia.Prelude.{
  ℕ, zero, suc, ◌≤◌, ◌<◌, false, Option, none, some, List, [], ◌∷◌, ◌++◌, length, ◌≡◌, arith, All,
  All-append,
}
use desiree_ia.JsonGrammar.{
  Kind, any, string, lits, union, Grammar, node_at, Mask, ObjectState, colon, ArrayState,
  StringState, norm, esc, hex, NumberState, Frame, value, in_object, in_array, in_string, in_number,
  in_literal, Config, Turn, done, again, blank, max_depth, max_blanks,
}
use desiree_ia.JsonGrammar.Start.{start_alts, start_kind, start_value}
use desiree_ia.JsonGrammar.Member.{
  is_full, step_object, step_array, step_string, step_number, step_literal,
}
use desiree_ia.JsonGrammar.Step.{turn, step_rounds, step}

abbrev pub Within : Option ℕ → ℕ → Type 0
Within none a = Unit
Within (some m) a = a ≤ m

-- What a frame on top knows of its counts.
abbrev pub HoldsArray : Grammar → ℕ → ℕ → ArrayState → Type 0
HoldsArray g node a ArrayState.opened = a ≡ 0
HoldsArray g node a ArrayState.comma = Within (node_at g node).max_items a
HoldsArray g node a ArrayState.next = is_full (node_at g node).max_items a ≡ false

abbrev pub HoldsString : Grammar → ℕ → ℕ → StringState → Type 0
HoldsString g node a norm = Within (node_at g node).max_len a
HoldsString g node a esc = is_full (node_at g node).max_len a ≡ false
HoldsString g node a (hex left) = Within (node_at g node).max_len a

abbrev pub Holds : Grammar → Frame → Type 0
Holds g (in_array node a st) = HoldsArray g node a st
Holds g (in_string node a st) = HoldsString g node a st
Holds g _ = Unit

-- A frame below another waits for a comma or its closing bracket.
abbrev pub Waits : Grammar → Frame → Type 0
Waits g (in_object node used ObjectState.comma) = Unit
Waits g (in_array node a ArrayState.comma) = Within (node_at g node).max_items a
Waits g _ = ⊥

abbrev pub Room : Frame → List Frame → Type 0
Room (value node) rest = length rest ≤ max_depth
Room _ rest = length rest < max_depth

abbrev pub SoundStack : Grammar → List Frame → Type 0
SoundStack g [] = Unit
SoundStack g (f ∷ rest) = Holds g f × All (Waits g) rest × Room f rest

pub record IsSound (g : Grammar) (c : Config) : Type 0 where
  pub stacked : SoundStack g c.stack
  pub blanks : c.ws ≤ max_blanks

abbrev pub SoundAll : Grammar → Option (List Config) → Type 0
SoundAll g none = Unit
SoundAll g (some cs) = All (IsSound g) cs

abbrev pub SoundTurn : Grammar → Turn → Type 0
SoundTurn g (done out) = SoundAll g out
SoundTurn g (again c) = IsSound g c

-- What is left when a value is complete.
popped-Sound :
    (g : Grammar) (rest : List Frame)
    → All (Waits g) rest
    → length rest ≤ max_depth
    → SoundStack g rest
popped-Sound g [] w r = tt
popped-Sound g (in_object node used ObjectState.comma ∷ rest) w r = (tt, w.1, omega arith)
popped-Sound g (in_array node a ArrayState.comma ∷ rest) w r = (w.0, w.1, omega arith)
popped-Sound g (_ ∷ rest) w r = absurd w.0

is_full-Within : (m : Option ℕ) (a : ℕ) → is_full m a ≡ false → Within m (suc a)
is_full-Within none a h = tt
is_full-Within (some m) a h = ground arith

Within-zero : (m : Option ℕ) → Within m 0
Within-zero none = tt
Within-zero (some m) = omega arith

start_alts-Sound :
    (g : Grammar) (start : ℕ → Option (List Config)) (alts : List ℕ)
    → ((j : ℕ) → SoundAll g (start j))
    → SoundAll g (start_alts start alts)
unfolding start_alts
start_alts-Sound g start [] h = tt
start_alts-Sound g start (a ∷ rest) h =
    append_both (start a) (start_alts start rest) (h a) (start_alts-Sound g start rest h)
  where
    append_both :
        (o p : Option (List Config))
        → SoundAll g o
        → SoundAll g p
        → SoundAll g
            (elim o [ none ↦ none | some xs ↦ elim p [ none ↦ none | some ys ↦ some (xs ++ ys) ] ])
    append_both none p ho hp = tt
    append_both (some xs) none ho hp = tt
    append_both (some xs) (some ys) ho hp = All-append (IsSound g) xs ys ho hp

module _ (g : Grammar) (rest : List Frame) (w : All (Waits g) rest) where
  module _ (room : length rest < max_depth) where
    start_kind-Sound :
        (start : ℕ → Option (List Config)) (kind : Kind) (node ch : ℕ)
        → ((j : ℕ) → SoundAll g (start j))
        → SoundAll g (start_kind kind g start (record { stack = rest; ws = 0 }) node ch)
    unfolding start_kind
    start_kind-Sound start union node ch h = start_alts-Sound g start _ h
    start_kind-Sound start any node ch h =
        ground (arith, h g.any_obj, h g.any_arr, h g.any_str, h g.any_num, h g.any_lits)
    start_kind-Sound start string node ch h = ground (arith, Within-zero (node_at g node).max_len)
    start_kind-Sound start lits node ch h = ground (arith, popped-Sound g rest w (omega arith))
    start_kind-Sound start _ node ch h = ground arith

  start_value-Sound :
      (f node ch : ℕ) → SoundAll g (start_value f g (record { stack = rest; ws = 0 }) node ch)
  unfolding start_value
  start_value-Sound zero node ch = tt
  start_value-Sound (suc f) node ch = ground (
    arith,
    λ (room : length rest < max_depth).
        start_kind-Sound room _ (node_at g node).kind node ch (λ j. start_value-Sound f j ch),
  )

  module _ (ws : ℕ) (few : ws ≤ max_blanks) (ch : ℕ) (node : ℕ) where
    value-Sound :
        (depth : ℕ) → length rest ≤ max_depth → SoundTurn g (turn depth g (value node ∷ rest) ws ch)
    unfolding turn blank
    value-Sound depth room = ground (arith, start_value-Sound depth node ch)

    object-Sound :
        (used : Mask) (st : ObjectState)
        → length rest < max_depth
        → SoundTurn g (step_object g rest ws node used st ch)
    unfolding step_object blank
    object-Sound used (colon child) room = ground arith
    object-Sound used _ room = ground (arith, popped-Sound g rest w (omega arith))

    array-Sound :
        (a : ℕ) (st : ArrayState)
        → length rest < max_depth
        → HoldsArray g node a st
        → SoundTurn g (step_array g rest ws node a st ch)
    unfolding step_array blank
    array-Sound a ArrayState.opened room h =
        ground
          (arith, popped-Sound g rest w (omega arith), is_full-Within (node_at g node).max_items 0)
    array-Sound a ArrayState.comma room h = ground (arith, popped-Sound g rest w (omega arith))
    array-Sound a ArrayState.next room h =
        ground (arith, is_full-Within (node_at g node).max_items a h)

    string-Sound :
        (a : ℕ) (st : StringState)
        → length rest < max_depth
        → HoldsString g node a st
        → SoundTurn g (step_string g rest ws node a st ch)
    unfolding step_string
    string-Sound a norm room h =
        ground
          (arith, popped-Sound g rest w (omega arith), is_full-Within (node_at g node).max_len a)
    string-Sound a esc room h = ground (arith, is_full-Within (node_at g node).max_len a h)
    string-Sound a (hex left) room h = ground arith

    number-Sound :
        (st : NumberState)
        → length rest < max_depth
        → SoundTurn g (step_number g rest ws node st ch)
    unfolding step_number
    number-Sound st room = ground (arith, popped-Sound g rest w (omega arith))

    literal-Sound :
        (lo hi pos : ℕ)
        → length rest < max_depth
        → SoundTurn g (step_literal g rest ws node lo hi pos ch)
    unfolding step_literal
    literal-Sound lo hi pos room = ground (arith, popped-Sound g rest w (omega arith))

Turn-bind :
    (g : Grammar) (t : Turn) (k : Config → Option (List Config))
    → SoundTurn g t
    → ((c : Config) → IsSound g c → SoundAll g (k c))
    → SoundAll g (elim t [ done out ↦ out | again c ↦ k c ])
Turn-bind g (done out) k h f = h
Turn-bind g (again c) k h f = f c h

module _ (depth : ℕ) (g : Grammar) where
  pub turn-Sound :
      (stack : List Frame) (ws ch : ℕ)
      → SoundStack g stack
      → ws ≤ max_blanks
      → SoundTurn g (turn depth g stack ws ch)
  unfolding turn
  turn-Sound [] ws ch s b = ground arith
  turn-Sound (value node ∷ rest) ws ch s b = value-Sound g rest s.1 ws b ch node depth s.2
  turn-Sound (in_object node used st ∷ rest) ws ch s b =
      object-Sound g rest s.1 ws b ch node used st s.2
  turn-Sound (in_array node a st ∷ rest) ws ch s b =
      array-Sound g rest s.1 ws b ch node a st s.2 s.0
  turn-Sound (in_string node a st ∷ rest) ws ch s b =
      string-Sound g rest s.1 ws b ch node a st s.2 s.0
  turn-Sound (in_number node st ∷ rest) ws ch s b = number-Sound g rest s.1 ws b ch node st s.2
  turn-Sound (in_literal node lo hi pos ∷ rest) ws ch s b =
      literal-Sound g rest s.1 ws b ch node lo hi pos s.2

  step_rounds-Sound :
      (rounds : ℕ) (c : Config) (ch : ℕ)
      → IsSound g c
      → SoundAll g (step_rounds depth g (some []) rounds c ch)
  unfolding step_rounds
  step_rounds-Sound zero c ch s = tt
  step_rounds-Sound (suc rounds) c ch s =
      Turn-bind g (turn depth g c.stack c.ws ch) _ (turn-Sound c.stack c.ws ch s.stacked s.blanks)
        (λ c' s'. step_rounds-Sound rounds c' ch s')

  pub step-Sound : (c : Config) (ch : ℕ) → IsSound g c → SoundAll g (step depth g c ch)
  unfolding step
  step-Sound c ch s = step_rounds-Sound 8 c ch s
