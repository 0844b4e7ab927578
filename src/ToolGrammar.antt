-- ===== src/ToolGrammar.antt =====
-- core/tool_grammar.h and core/tool_grammar.cpp (src/DesireeIA.LocaleEngine/src): the constraint
-- that follows a tool call byte by byte. The back of the C++ string `stack` is the head of the
-- list here. `step` returns `none` where the C++ one returns false: its callers then throw the
-- half-changed state away. `accept`, `allows` and the tests on the state are in the child `Accept`.
pub mod Accept
pub mod Fuel
pub mod Shape
pub mod Names
pub mod Split
pub mod Canonical
pub mod Gaps
mod Tests
use desiree_ia.Prelude.{
  ℕ, zero, suc, ◌+◌, ◌-◌, Bool, true, false, not, ◌&&◌, ◌||◌, Option, none, some, List, [], ◌∷◌,
  ◌++◌, length, get_or, is_empty, ◌==◌, ltb, if◌then◌else◌, Bytes, codes, equal, is_prefix,
  is_digit, is_hex,
}

pub data Phase : Type 0 where
  scanning json close finished : Phase

pub data Mode : Type 0 where
  value obj_key_or_end obj_key colon obj_comma_or_end arr_value_or_end arr_comma_or_end : Mode
  string number literal done : Mode

pub record State : Type 0 where
  pub phase : Phase
  pub mode : Mode
  pub stack : Bytes
  pub in_key : Bool
  pub esc : Bool
  pub hex_left : ℕ
  pub literal_rest : Bytes
  pub key : Bytes
  pub top_key : Bytes
  pub name : Bytes
  pub reading_name : Bool
  pub close_pos : ℕ
  pub tail : Bytes
  pub started : Bool

-- What `configure` stores.
pub record Config : Type 0 where
  pub open_tag : Bytes
  pub close_tag : Bytes
  pub names : List Bytes

abbrev pub initial : State
initial = record {
  phase = scanning;
  mode = value;
  stack = [];
  in_key = false;
  esc = false;
  hex_left = 0;
  literal_rest = [];
  key = [];
  top_key = [];
  name = [];
  reading_name = false;
  close_pos = 0;
  tail = [];
  started = false;
}

abbrev pub is_ws : ℕ → Bool
is_ws c = c == b' ' || c == b'\t' || c == b'\n' || c == b'\r'

abbrev pub is_escape : ℕ → Bool
is_escape c =
    c == b'"'
    || c == b'\\'
    || c == b'/'
    || c == b'b'
    || c == b'f'
    || c == b'n'
    || c == b'r'
    || c == b't'

abbrev pub is_number_byte : ℕ → Bool
is_number_byte c = is_digit c || c == b'.' || c == b'e' || c == b'E' || c == b'+' || c == b'-'

abbrev pub text_name : Bytes
text_name = codes "name"

abbrev pub text_arguments : Bytes
text_arguments = codes "arguments"

-- The loop of `name_prefix_ok` over the declared names.
pub any_name : List Bytes → Bytes → Bool → Bool
any_name [] name closing = false
any_name (n ∷ ns) name closing =
    (if closing then equal n name else is_prefix name n) || any_name ns name closing

pub name_prefix_ok : List Bytes → Bytes → Bool → Bool
name_prefix_ok [] name closing = if closing then not (is_empty name) else true
name_prefix_ok (n ∷ ns) name closing = any_name (n ∷ ns) name closing

pub after_value_at : Config → Bytes → State → State
after_value_at k [] s = record s {
  mode = done;
  phase = if is_empty k.close_tag then finished else close;
  close_pos = 0;
}
after_value_at k (top ∷ rest) s = record s {
  mode = if top == b'{' then obj_comma_or_end else arr_comma_or_end;
}

pub after_value : Config → State → State
unfolding after_value_at
after_value k s = after_value_at k s.stack s

-- `s.stack.pop_back()`
abbrev pop_back : Bytes → Bytes
pop_back [] = []
pop_back (top ∷ rest) = rest

pub step_close : Config → State → ℕ → Option State
step_close k s c =
    if s.close_pos == 0 && is_ws c
    then some s
    else if not (c == get_or k.close_tag s.close_pos 0)
    then none
    else if suc s.close_pos == length k.close_tag
    then some (record s { close_pos = suc s.close_pos; phase = finished })
    else some (record s { close_pos = suc s.close_pos })

pub step_start : State → ℕ → Option State
step_start s c =
    if is_ws c
    then some s
    else if not (c == b'{')
    then none
    else some (record s { started = true; stack = b'{' ∷ s.stack; mode = obj_key_or_end })

-- `case Mode::Value`; `top` is `depth == 1`.
pub step_value : Bool → State → ℕ → Option State
step_value top s c =
    if is_ws c
    then some s
    else if top && equal s.top_key text_name && not (c == b'"')
    then none
    else if top && equal s.top_key text_arguments && not (c == b'{')
    then none
    else if c == b'{'
    then some (record s { stack = b'{' ∷ s.stack; mode = obj_key_or_end })
    else if c == b'['
    then some (record s { stack = b'[' ∷ s.stack; mode = arr_value_or_end })
    else if c == b'"'
    then some (record s {
      mode = string;
      in_key = false;
      reading_name = top && equal s.top_key text_name;
      name = if top && equal s.top_key text_name then [] else s.name;
    })
    else if c == b't'
    then some (record s { mode = literal; literal_rest = codes "rue" })
    else if c == b'f'
    then some (record s { mode = literal; literal_rest = codes "alse" })
    else if c == b'n'
    then some (record s { mode = literal; literal_rest = codes "ull" })
    else if c == b'-' || is_digit c
    then some (record s { mode = number })
    else none

-- `case Mode::ObjKey`
pub step_key : State → ℕ → Option State
step_key s c =
    if is_ws c
    then some s
    else if not (c == b'"')
    then none
    else some (record s { mode = string; in_key = true; key = [] })

-- `case Mode::ObjKeyOrEnd`, which falls through to `ObjKey`.
pub step_key_or_end : Config → Bool → State → ℕ → Option State
unfolding step_key
step_key_or_end k top s c =
    if is_ws c
    then some s
    else if c == b'}'
    then (if top then none else some (after_value k (record s { stack = pop_back s.stack })))
    else step_key s c

-- The closing quote of a string.
pub end_string : Config → Bool → State → Option State
end_string k top s =
    if s.in_key
    then (if top && not (equal s.key text_name) && not (equal s.key text_arguments)
        then none
        else some (record s { mode = colon }))
    else if s.reading_name
    then (if name_prefix_ok k.names s.name true
        then some (after_value k (record s { reading_name = false }))
        else none)
    else some (after_value k s)

-- A byte of a string that neither escapes nor ends it.
pub string_byte : Config → Bool → State → ℕ → Option State
string_byte k top s c =
    if s.in_key && top
    then (if is_prefix (s.key ++ c ∷ []) text_name || is_prefix (s.key ++ c ∷ []) text_arguments
        then some (record s { key = s.key ++ c ∷ [] })
        else none)
    else if s.in_key
    then some s
    else if s.reading_name
    then (if name_prefix_ok k.names (s.name ++ c ∷ []) false
        then some (record s { name = s.name ++ c ∷ [] })
        else none)
    else some s

-- The byte after a backslash.
pub escaped_byte : State → ℕ → Option State
escaped_byte s c =
    if c == b'u'
    then some (record s { esc = false; hex_left = 4 })
    else if not (is_escape c)
    then none
    else if s.reading_name
    then none
    else some (record s { esc = false })

-- `case Mode::String`
pub step_string : Config → Bool → State → ℕ → Option State
unfolding end_string string_byte escaped_byte
step_string k top s c =
    if ltb 0 s.hex_left
    then (if is_hex c then some (record s { hex_left = s.hex_left - 1 }) else none)
    else if s.esc
    then escaped_byte s c
    else if c == b'\\'
    then some (record s { esc = true })
    else if ltb c 0x20
    then none
    else if c == b'"'
    then end_string k top s
    else string_byte k top s c

-- `case Mode::Colon`
pub step_colon : Bool → State → ℕ → Option State
step_colon top s c =
    if is_ws c
    then some s
    else if not (c == b':')
    then none
    else some (record s { top_key = if top then s.key else s.top_key; mode = value })

-- `case Mode::ObjCommaOrEnd`
pub step_obj_comma : Config → Bool → State → ℕ → Option State
step_obj_comma k top s c =
    if is_ws c
    then some s
    else if c == b','
    then some (record s { mode = obj_key })
    else if c == b'}'
    then (if top && not (name_prefix_ok k.names s.name true)
        then none
        else some (after_value k (record s { stack = pop_back s.stack })))
    else none

-- `case Mode::ArrCommaOrEnd`
pub step_arr_comma : Config → State → ℕ → Option State
step_arr_comma k s c =
    if is_ws c
    then some s
    else if c == b','
    then some (record s { mode = value })
    else if c == b']'
    then some (after_value k (record s { stack = pop_back s.stack }))
    else none

-- `case Mode::Literal`
pub step_literal : Config → Bytes → State → ℕ → Option State
step_literal k [] s c = none
step_literal k (x ∷ []) s c =
    if not (c == x) then none else some (after_value k (record s { literal_rest = [] }))
step_literal k (x ∷ y ∷ rest) s c =
    if not (c == x) then none else some (record s { literal_rest = y ∷ rest })

-- The switch; `again` is the call `step(s, c)` inside it.
pub step_mode : Config → (State → Option State) → Mode → State → ℕ → Option State
unfolding step_value step_key step_key_or_end step_string step_colon step_obj_comma step_arr_comma
    step_literal
step_mode k again value s c = step_value (length s.stack == 1) s c
step_mode k again obj_key_or_end s c = step_key_or_end k (length s.stack == 1) s c
step_mode k again obj_key s c = step_key s c
step_mode k again string s c = step_string k (length s.stack == 1) s c
step_mode k again colon s c = step_colon (length s.stack == 1) s c
step_mode k again obj_comma_or_end s c = step_obj_comma k (length s.stack == 1) s c
step_mode k again arr_value_or_end s c =
    if is_ws c
    then some s
    else if c == b']'
    then some (after_value k (record s { stack = pop_back s.stack }))
    else again (record s { mode = value })
step_mode k again arr_comma_or_end s c = step_arr_comma k s c
step_mode k again number s c = if is_number_byte c then some s else again (after_value k s)
step_mode k again literal s c = step_literal k s.literal_rest s c
step_mode k again done s c = none

pub step_phase : Config → (State → Option State) → Phase → State → ℕ → Option State
unfolding step_close step_start
step_phase k again finished s c = none
step_phase k again close s c = step_close k s c
step_phase k again _ s c = if not s.started then step_start s c else step_mode k again s.mode s c

-- `step` with a bound on its calls of itself, and an answer for the call at which the bound is met.
pub step_fuel : (State → Option State) → ℕ → Config → State → ℕ → Option State
step_fuel unmet zero k s c = unmet s
step_fuel unmet (suc f) k s c = step_phase k (λ s'. step_fuel unmet f k s' c) s.phase s c

-- Two levels are enough, so that the answer at the bound is never given: `Fuel`.
pub step : Config → State → ℕ → Option State
unfolding step_fuel
step = step_fuel (λ s. none) 2
