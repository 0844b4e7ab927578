-- ===== src/JsonGrammar/Start.antt =====
-- core/json_grammar.cpp, `start_value` and `can_end`.
use desiree_ia.Prelude.{
  ℕ, zero, suc, ◌-◌, Bool, true, false, not, ◌&&◌, ◌||◌, Option, none, some, List, [], ◌∷◌, ◌++◌,
  length, ◌==◌, leb, if◌then◌else◌, is_digit,
}
use desiree_ia.JsonGrammar.{
  Kind, any, object, array, string, number, integer, lits, union, Node, Grammar, node_at,
  ObjectState, ArrayState, norm, NumberState, minus, zero_digit, int, frac, exp, Frame, in_object,
  in_array, in_string, in_number, in_literal, Config, max_depth, narrow, any_longer, any_of_length,
}

abbrev enter : Config → Frame → Option (List Config)
enter c f = some (record c { stack = f ∷ c.stack } ∷ [])

-- `case SNode::Union`: the alternatives in turn.
unfoldable pub start_alts : (ℕ → Option (List Config)) → List ℕ → Option (List Config)
start_alts start [] = some []
start_alts start (alt ∷ alts) = elim (start alt) [
  | none ↦ none
  | some xs ↦ elim (start_alts start alts) [ none ↦ none | some ys ↦ some (xs ++ ys) ]
]

-- `case SNode::Any`
unfoldable pub start_any : Grammar → (ℕ → Option (List Config)) → ℕ → Option (List Config)
start_any g start ch =
    if ch == b'{'
    then start g.any_obj
    else if ch == b'['
    then start g.any_arr
    else if ch == b'"'
    then start g.any_str
    else if ch == b'-' || is_digit ch
    then start g.any_num
    else if ch == b't' || ch == b'f' || ch == b'n'
    then start g.any_lits
    else some []

-- `case SNode::Number` and `SNode::Integer`
unfoldable pub start_number : Config → ℕ → ℕ → Option (List Config)
start_number c node ch =
    if ch == b'-'
    then enter c (in_number node minus)
    else if ch == b'0'
    then enter c (in_number node zero_digit)
    else if leb b'1' ch && leb ch b'9'
    then enter c (in_number node int)
    else some []

-- `case SNode::Lits`: the first character is consumed; a literal of one character is complete.
unfoldable pub start_lits : Node → Config → ℕ → ℕ → Option (List Config)
start_lits n c node ch = elim (narrow n.texts (length n.texts) 0 0 ch none) [
  | none ↦ some []
  | some (lo, hi) ↦
      if any_longer n.texts (hi - lo) lo 1 then enter c (in_literal node lo hi 1) else some (c ∷ [])
]

unfoldable pub start_kind :
    Kind → Grammar → (ℕ → Option (List Config)) → Config → ℕ → ℕ → Option (List Config)
unfolding start_alts start_any start_number start_lits
start_kind union g start c node ch = start_alts start (node_at g node).alts
start_kind any g start c node ch = start_any g start ch
start_kind object g start c node ch =
    if not (ch == b'{') then some [] else enter c (in_object node [] ObjectState.opened)
start_kind array g start c node ch =
    if not (ch == b'[') then some [] else enter c (in_array node 0 ArrayState.opened)
start_kind string g start c node ch =
    if not (ch == b'"') then some [] else enter c (in_string node 0 norm)
start_kind number g start c node ch = start_number c node ch
start_kind integer g start c node ch = start_number c node ch
start_kind lits g start c node ch = start_lits (node_at g node) c node ch

-- `start_value` with a bound on the depth of its calls; `none` where the bound is met.
unfoldable pub start_value : ℕ → Grammar → Config → ℕ → ℕ → Option (List Config)
start_value zero g c node ch = none
start_value (suc f) g c node ch =
    if leb max_depth (length c.stack)
    then some []
    else start_kind (node_at g node).kind g (λ alt. start_value f g c alt ch) c node ch

-- The states in which a number may end.
unfoldable pub is_final : NumberState → Bool
is_final zero_digit = true
is_final int = true
is_final frac = true
is_final exp = true
is_final _ = false

unfoldable pub frame_can_end : Grammar → Frame → Bool
unfolding is_final
frame_can_end g (in_number node st) = is_final st
frame_can_end g (in_literal node lo hi pos) = any_of_length (node_at g node).texts (hi - lo) lo pos
frame_can_end g _ = false

unfoldable pub stack_can_end : Grammar → List Frame → Bool
stack_can_end g [] = true
stack_can_end g (f ∷ fs) = frame_can_end g f && stack_can_end g fs

unfoldable pub can_end : Grammar → Config → Bool
unfolding stack_can_end frame_can_end
can_end g c = stack_can_end g c.stack
