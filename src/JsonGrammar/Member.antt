-- ===== src/JsonGrammar/Member.antt =====
-- core/json_grammar.cpp, `step`: the cases K_OBJ, K_ARR, K_STR, K_NUM and K_LIT. `rest` is the
-- stack below the frame, and `ws` the blanks counted so far.
use desiree_ia.Prelude.{
  ℕ, zero, suc, ◌-◌, Bool, true, false, not, ◌&&◌, ◌||◌, Option, none, some, List, [], ◌∷◌, length,
  get_or, ◌==◌, ltb, leb, if◌then◌else◌, is_digit, is_hex,
}
use desiree_ia.JsonGrammar.{
  Kind, integer, Node, Grammar, node_at, Mask, ObjectState, key, free_key, free_key_esc,
  free_key_hex, colon, ArrayState, StringState, norm, esc, hex, NumberState, minus, zero_digit, int,
  dot, frac, e, e_sign, exp, Frame, value, in_object, in_array, in_string, in_number, in_literal,
  Config, Turn, again, push, dead, is_ws, is_escape, blank, bit, set_bit, covers, any_free, narrow,
  any_longer, any_of_length,
}

-- The index of the first key of the `n` from `i` on that is not used and has length `pos`.
unfoldable pub find_key : Node → Mask → ℕ → ℕ → ℕ → Option ℕ
find_key n used zero i pos = none
find_key n used (suc rounds) i pos =
    if not (bit used i) && length (get_or n.keys i []) == pos
    then some i
    else find_key n used rounds (suc i) pos

unfoldable pub is_opened : ObjectState → Bool
is_opened ObjectState.opened = true
is_opened _ = false

-- Where the number goes on with the character; `none` where it ends before it.
unfoldable pub number_next : Bool → NumberState → ℕ → Option (Option NumberState)
number_next is_int minus ch =
    if ch == b'0'
    then some (some zero_digit)
    else if leb b'1' ch && leb ch b'9'
    then some (some int)
    else some none
number_next is_int zero_digit ch =
    if ch == b'.' && not is_int
    then some (some dot)
    else if (ch == b'e' || ch == b'E') && not is_int
    then some (some e)
    else if is_digit ch
    then some none
    else none
number_next is_int int ch =
    if is_digit ch
    then some (some int)
    else if ch == b'.' && not is_int
    then some (some dot)
    else if (ch == b'e' || ch == b'E') && not is_int
    then some (some e)
    else none
number_next is_int dot ch = if not (is_digit ch) then some none else some (some frac)
number_next is_int frac ch =
    if is_digit ch
    then some (some frac)
    else if ch == b'e' || ch == b'E'
    then some (some e)
    else none
number_next is_int e ch =
    if ch == b'+' || ch == b'-'
    then some (some e_sign)
    else if not (is_digit ch)
    then some none
    else some (some exp)
number_next is_int e_sign ch = if not (is_digit ch) then some none else some (some exp)
number_next is_int exp ch = if is_digit ch then some (some exp) else none

unfoldable pub is_integer : Kind → Bool
is_integer integer = true
is_integer _ = false

-- `n.max_items >= 0 && a >= n.max_items`, and the same of `max_len`.
abbrev pub is_full : Option ℕ → ℕ → Bool
is_full none a = false
is_full (some m) a = leb m a

module _ (g : Grammar) (rest : List Frame) (ws : ℕ) (node : ℕ) where
  -- The same configuration with another frame on top, with no frame on top, and with a value
  -- to be read above a frame.
  abbrev pub on_top : Frame → ℕ → Config
  on_top f ws' = record { stack = f ∷ rest; ws = ws' }

  abbrev pub popped : ℕ → Config
  popped ws' = record { stack = rest; ws = ws' }

  abbrev pub with_value : Frame → Option ℕ → Config
  with_value f child = record {
    stack = value (elim child [ none ↦ g.any_value | some i ↦ i ]) ∷ f ∷ rest;
    ws = 0;
  }

  -- `key_start`, and what its result is used for.
  unfoldable pub key_start : Mask → Turn
  key_start used =
      if any_free used (length (node_at g node).keys) 0
      then push (on_top (in_object node used (key 0 (length (node_at g node).keys) 0)) 0)
      else if (node_at g node).extra_ok
      then push (on_top (in_object node used free_key) 0)
      else dead

  -- O_OPEN and O_NEXT.
  unfoldable pub step_open : Mask → ObjectState → ℕ → Turn
  unfolding key_start is_opened
  step_open used st ch =
      if is_ws ch
      then blank (on_top (in_object node used st) ws)
      else if ch == b'"'
      then key_start used
      else if ch == b'}' && is_opened st
      then (if not (covers used (node_at g node).req_mask) then dead else push (popped 0))
      else dead

  -- O_KEY at the closing quote.
  unfoldable pub end_key : Mask → ℕ → ℕ → ℕ → Turn
  end_key used lo hi pos = elim (find_key (node_at g node) used (hi - lo) lo pos) [
    | some i ↦ push (
        on_top (in_object node (set_bit used i) (colon (some (get_or (node_at g node).prop i 0))))
          ws)
    | none ↦
        if (node_at g node).extra_ok
        then push (on_top (in_object node used (colon (node_at g node).extra_node)) ws)
        else dead
  ]

  -- O_KEY at a character that no known key goes on with.
  unfoldable pub leave_keys : Mask → ℕ → Turn
  leave_keys used ch =
      if (node_at g node).extra_ok && leb 0x20 ch && not (ch == b'\\')
      then push (on_top (in_object node used free_key) ws)
      else dead

  unfoldable pub step_key : Mask → ℕ → ℕ → ℕ → ℕ → Turn
  unfolding end_key leave_keys
  step_key used lo hi pos ch =
      if ch == b'"'
      then end_key used lo hi pos
      else elim (narrow (node_at g node).keys (hi - lo) lo pos ch none) [
        | none ↦ leave_keys used ch
        | some (lo', hi') ↦
            if any_free used (hi' - lo') lo'
            then push (on_top (in_object node used (key lo' hi' (suc pos))) ws)
            else leave_keys used ch
      ]

  unfoldable pub step_free_key : Mask → ℕ → Turn
  step_free_key used ch =
      if ch == b'"'
      then push (on_top (in_object node used (colon (node_at g node).extra_node)) ws)
      else if ch == b'\\'
      then push (on_top (in_object node used free_key_esc) ws)
      else if ltb ch 0x20
      then dead
      else push (on_top (in_object node used free_key) ws)

  unfoldable pub step_free_key_esc : Mask → ℕ → Turn
  step_free_key_esc used ch =
      if ch == b'u'
      then push (on_top (in_object node used (free_key_hex 4)) ws)
      else if is_escape ch
      then push (on_top (in_object node used free_key) ws)
      else dead

  unfoldable pub step_free_key_hex : Mask → ℕ → ℕ → Turn
  step_free_key_hex used left ch =
      if not (is_hex ch)
      then dead
      else if left == 1
      then push (on_top (in_object node used free_key) ws)
      else push (on_top (in_object node used (free_key_hex (left - 1))) ws)

  unfoldable pub step_colon : Mask → Option ℕ → ℕ → Turn
  step_colon used child ch =
      if is_ws ch
      then blank (on_top (in_object node used (colon child)) ws)
      else if not (ch == b':')
      then dead
      else push (with_value (in_object node used ObjectState.comma) child)

  unfoldable pub step_comma : Mask → ℕ → Turn
  step_comma used ch =
      if is_ws ch
      then blank (on_top (in_object node used ObjectState.comma) ws)
      else if ch == b','
      then (if (node_at g node).extra_ok || any_free used (length (node_at g node).keys) 0
          then push (on_top (in_object node used ObjectState.next) 0)
          else dead)
      else if ch == b'}'
      then (if not (covers used (node_at g node).req_mask) then dead else push (popped 0))
      else dead

  unfoldable pub step_object : Mask → ObjectState → ℕ → Turn
  unfolding step_open step_key step_free_key step_free_key_esc step_free_key_hex step_colon
      step_comma
  step_object used (key lo hi pos) ch = step_key used lo hi pos ch
  step_object used free_key ch = step_free_key used ch
  step_object used free_key_esc ch = step_free_key_esc used ch
  step_object used (free_key_hex left) ch = step_free_key_hex used left ch
  step_object used (colon child) ch = step_colon used child ch
  step_object used ObjectState.comma ch = step_comma used ch
  step_object used ObjectState.opened ch = step_open used ObjectState.opened ch
  step_object used ObjectState.next ch = step_open used ObjectState.next ch

  -- `item_value`
  abbrev pub item_value : ℕ → Config
  item_value a = with_value (in_array node (suc a) ArrayState.comma) (node_at g node).items

  unfoldable pub close_array : ℕ → Turn
  close_array a = if ltb a (node_at g node).min_items then dead else push (popped 0)

  unfoldable pub array_state : ℕ → ArrayState → ℕ → Turn
  unfolding close_array
  array_state a ArrayState.opened ch =
      if ch == b']'
      then close_array a
      else if is_full (node_at g node).max_items 0
      then dead
      else again (item_value a)
  array_state a ArrayState.comma ch =
      if ch == b','
      then (if is_full (node_at g node).max_items a
          then dead
          else push (on_top (in_array node a ArrayState.next) 0))
      else if ch == b']'
      then close_array a
      else dead
  array_state a ArrayState.next ch = again (item_value a)

  unfoldable pub step_array : ℕ → ArrayState → ℕ → Turn
  unfolding array_state
  step_array a st ch =
      if is_ws ch then blank (on_top (in_array node a st) ws) else array_state a st ch

  unfoldable pub step_string : ℕ → StringState → ℕ → Turn
  step_string a norm ch =
      if ch == b'"'
      then (if ltb a (node_at g node).min_len then dead else push (popped ws))
      else if ch == b'\\'
      then (if is_full (node_at g node).max_len a
          then dead
          else push (on_top (in_string node a esc) ws))
      else if ltb ch 0x20
      then dead
      else if leb 0x80 ch && ltb ch 0xC0
      then push (on_top (in_string node a norm) ws)
      else if is_full (node_at g node).max_len a
      then dead
      else push (on_top (in_string node (suc a) norm) ws)
  step_string a esc ch =
      if ch == b'u'
      then push (on_top (in_string node (suc a) (hex 4)) ws)
      else if is_escape ch
      then push (on_top (in_string node (suc a) norm) ws)
      else dead
  step_string a (hex left) ch =
      if not (is_hex ch)
      then dead
      else if left == 1
      then push (on_top (in_string node a norm) ws)
      else push (on_top (in_string node a (hex (left - 1))) ws)

  unfoldable pub step_number : NumberState → ℕ → Turn
  unfolding number_next is_integer
  step_number st ch = elim (number_next (is_integer (node_at g node).kind) st ch) [
    | none ↦ again (popped ws)
    | some to ↦ elim to [ none ↦ dead | some st' ↦ push (on_top (in_number node st') ws) ]
  ]

  unfoldable pub step_literal : ℕ → ℕ → ℕ → ℕ → Turn
  step_literal lo hi pos ch = elim (narrow (node_at g node).texts (hi - lo) lo pos ch none) [
    | some (lo', hi') ↦
        if any_longer (node_at g node).texts (hi' - lo') lo' (suc pos)
        then push (on_top (in_literal node lo' hi' (suc pos)) ws)
        else push (popped ws)
    | none ↦
        if any_of_length (node_at g node).texts (hi - lo) lo pos then again (popped ws) else dead
  ]
