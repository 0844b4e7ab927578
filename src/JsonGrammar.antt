-- ===== src/JsonGrammar.antt =====
-- core/json_grammar.h and core/json_grammar.cpp (src/DesireeIA.LocaleEngine/src): the stack
-- automaton that keeps generated text a document of a JSON schema, from a compiled schema on.
-- This file has the data and the small helpers; the children have one part of `step` each.
-- A C++ frame is a kind, a state and registers whose meaning depends on both; here each kind is a
-- constructor with its registers. The back of the C++ stack is the head of the list. A negative
-- `extra_node`, `items`, `max_items` or `max_len` is `none`, and a negative minimum is 0. The
-- 64-bit key masks are lists of bits.
pub mod Start
pub mod Member
pub mod Step
pub mod Constraint
pub mod Returns
pub mod Bounds
pub mod Reached
pub mod Total
pub mod Rounds
pub mod Split
pub mod Trie
pub mod Compile
mod Tests
use desiree_ia.Prelude.{
  ℕ, zero, suc, ◌+◌, Bool, true, false, not, ◌&&◌, ◌||◌, Option, none, some, List, [], ◌∷◌, ◌≡◌,
  refl, arith, length, get_or, ◌==◌, ltb, if◌then◌else◌, Bytes,
}

-- `SNode::Kind`
pub data Kind : Type 0 where
  any object array string number integer lits union : Kind

abbrev pub Mask : Type 0
Mask = List Bool

-- `SNode`; its list of literals is `texts`.
pub record Node : Type 0 where
  pub kind : Kind
  pub keys : List Bytes
  pub prop : List ℕ
  pub req_mask : Mask
  pub extra_ok : Bool
  pub extra_node : Option ℕ
  pub items : Option ℕ
  pub min_items : ℕ
  pub max_items : Option ℕ
  pub min_len : ℕ
  pub max_len : Option ℕ
  pub texts : List Bytes
  pub alts : List ℕ

abbrev pub any_node : Node
any_node = record {
  kind = any;
  keys = [];
  prop = [];
  req_mask = [];
  extra_ok = false;
  extra_node = none;
  items = none;
  min_items = 0;
  max_items = none;
  min_len = 0;
  max_len = none;
  texts = [];
  alts = [];
}

-- The nodes of a compiled schema, its root, and the nodes that "any value" positions use.
pub record Grammar : Type 0 where
  pub nodes : List Node
  pub root : ℕ
  pub any_obj : ℕ
  pub any_arr : ℕ
  pub any_str : ℕ
  pub any_lits : ℕ
  pub any_num : ℕ
  pub any_value : ℕ

-- `nodes_[i]`
abbrev pub node_at : Grammar → ℕ → Node
node_at g i = get_or g.nodes i any_node

-- Object states: `key` has the registers a, b, c, and `colon` the node in b.
pub data ObjectState : Type 0 where
  opened : ObjectState
  key : ℕ → ℕ → ℕ → ObjectState
  free_key free_key_esc : ObjectState
  free_key_hex : ℕ → ObjectState
  colon : Option ℕ → ObjectState
  comma next : ObjectState

pub data ArrayState : Type 0 where
  opened comma next : ArrayState

pub data StringState : Type 0 where
  norm esc : StringState
  hex : ℕ → StringState

pub data NumberState : Type 0 where
  minus zero_digit int dot frac e e_sign exp : NumberState

-- K_VALUE, K_OBJ with `used`, K_ARR and K_STR with the count in a, K_NUM, K_LIT with a, b, c; the
-- first field is `node`.
pub data Frame : Type 0 where
  value : ℕ → Frame
  in_object : ℕ → Mask → ObjectState → Frame
  in_array : ℕ → ℕ → ArrayState → Frame
  in_string : ℕ → ℕ → StringState → Frame
  in_number : ℕ → NumberState → Frame
  in_literal : ℕ → ℕ → ℕ → ℕ → Frame

pub record Config : Type 0 where
  pub stack : List Frame
  pub ws : ℕ

-- How one round of `step` ends: it returns with these configurations pushed, or it goes on with
-- the same character. `none` stands for a call of `start_value` that does not return.
pub data Turn : Type 0 where
  done : Option (List Config) → Turn
  again : Config → Turn

abbrev pub max_depth : ℕ
max_depth = 64

abbrev pub max_configs : ℕ
max_configs = 48

abbrev pub max_blanks : ℕ
max_blanks = 8

abbrev pub push : Config → Turn
push c = done (some (c ∷ []))

abbrev pub dead : Turn
dead = done (some [])

abbrev pub is_ws : ℕ → Bool
is_ws c = c == b' ' || c == b'\n' || c == b'\t' || c == b'\r'

-- `std::strchr("\"\\/bfnrt", ch)` for a character that is not 0.
abbrev pub is_escape : ℕ → Bool
is_escape c =
    c == b'"'
    || c == b'\\'
    || c == b'/'
    || c == b'b'
    || c == b'f'
    || c == b'n'
    || c == b'r'
    || c == b't'

-- One more blank, up to the limit.
pub blank : Config → Turn
blank c = if ltb c.ws max_blanks then push (record c { ws = suc c.ws }) else dead

-- `mask & (1ull << i)` and `mask |= (1ull << i)`
abbrev pub bit : Mask → ℕ → Bool
bit m i = get_or m i false

pub set_bit : Mask → ℕ → Mask
set_bit [] zero = true ∷ []
set_bit [] (suc i) = false ∷ set_bit [] i
set_bit (b ∷ m) zero = true ∷ m
set_bit (b ∷ m) (suc i) = b ∷ set_bit m i

-- `(used & req_mask) == req_mask`
pub covers : Mask → Mask → Bool
covers used [] = true
covers [] (b ∷ req) = not b && covers [] req
covers (u ∷ used) (b ∷ req) = (not b || u) && covers used req

-- Some index of the `n` from `i` on is not in the mask.
pub any_free : Mask → ℕ → ℕ → Bool
any_free used zero i = false
any_free used (suc n) i = not (bit used i) || any_free used n (suc i)

-- The loop that narrows the range of the texts which go on with `ch` after `pos` characters:
-- from the first of them to the one after the last. `n` texts are left, from index `i`.
pub narrow : List Bytes → ℕ → ℕ → ℕ → ℕ → Option (ℕ × ℕ) → Option (ℕ × ℕ)
narrow ts zero i pos ch found = found
narrow ts (suc n) i pos ch found = narrow ts n (suc i) pos ch (
    if ltb pos (length (get_or ts i [])) && get_or (get_or ts i []) pos 0 == ch
    then some (elim found [ none ↦ i | some (lo, hi) ↦ lo ], suc i)
    else found)

-- Some text of the `n` from index `i` on is longer than `pos`; has just that length.
pub any_longer : List Bytes → ℕ → ℕ → ℕ → Bool
any_longer ts zero i pos = false
any_longer ts (suc n) i pos = ltb pos (length (get_or ts i [])) || any_longer ts n (suc i) pos

pub any_of_length : List Bytes → ℕ → ℕ → ℕ → Bool
any_of_length ts zero i pos = false
any_of_length ts (suc n) i pos = length (get_or ts i []) == pos || any_of_length ts n (suc i) pos
