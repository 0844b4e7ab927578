-- ===== src/DecisionJson/Parser.antt =====
-- models/decision_json.h: `parse_value`, `parse_arr`, `parse_obj` and `parse`.
use desiree_ia.Prelude.{
  ℕ, zero, suc, ◌+◌, ◌*◌, true, false, [], ◌∷◌, length, drop, ltb, ◌==◌, if◌then◌else◌, Bytes,
  is_prefix,
}
use desiree_ia.DecisionJson.Values.{
  Value, Items, Fields, null, bool, str, arr, obj, no_items, item, no_fields, field, Result, ok,
  failed, stuck, bind,
}
use desiree_ia.DecisionJson.Text.{skip_ws, parse_string, parse_num}

-- `parse_arr` and `parse_obj` after the opening bracket, where the loop is given.
unfoldable pub open_items : (Bytes → Result Items) → Bytes → Result Items
open_items items [] = items []
open_items items (c ∷ text) = if c == b']' then ok no_items text else items (c ∷ text)

unfoldable pub open_fields : (Bytes → Result Fields) → Bytes → Result Fields
open_fields fields [] = fields []
open_fields fields (c ∷ text) = if c == b'}' then ok no_fields text else fields (c ∷ text)

-- `parse_value` at a byte that is no blank.
unfoldable pub value_at : (Bytes → Result Items) → (Bytes → Result Fields) → Bytes → Result Value
unfolding open_items open_fields skip_ws parse_string parse_num
value_at items fields [] = failed
value_at items fields (c ∷ text) =
    if c == b'{'
    then bind (open_fields fields (skip_ws text)) (λ fs rest. ok (obj fs) rest)
    else if c == b'['
    then bind (open_items items (skip_ws text)) (λ xs rest. ok (arr xs) rest)
    else if c == b'"'
    then bind (parse_string (c ∷ text)) (λ s rest. ok (str s) rest)
    else if is_prefix (b'n' ∷ b'u' ∷ b'l' ∷ b'l' ∷ []) (c ∷ text)
    then ok null (drop 3 text)
    else if is_prefix (b't' ∷ b'r' ∷ b'u' ∷ b'e' ∷ []) (c ∷ text)
    then ok (bool true) (drop 3 text)
    else if is_prefix (b'f' ∷ b'a' ∷ b'l' ∷ b's' ∷ b'e' ∷ []) (c ∷ text)
    then ok (bool false) (drop 4 text)
    else parse_num (c ∷ text)

-- After an item, where the rest of the loop is given.
unfoldable pub after_item : (Bytes → Result Items) → Value → Bytes → Result Items
after_item items v [] = failed
after_item items v (c ∷ text) =
    if c == b','
    then bind (items text) (λ xs rest. ok (item v xs) rest)
    else if c == b']'
    then ok (item v no_items) text
    else failed

unfoldable pub after_field : (Bytes → Result Fields) → Bytes → Value → Bytes → Result Fields
after_field fields k v [] = failed
after_field fields k v (c ∷ text) =
    if c == b','
    then bind (fields text) (λ fs rest. ok (field k v fs) rest)
    else if c == b'}'
    then ok (field k v no_fields) text
    else failed

-- The colon after a key and what follows it.
unfoldable pub after_key : (Bytes → Result Value) → Bytes → Result Value
after_key parse [] = failed
after_key parse (c ∷ text) = if c == b':' then parse text else failed

unfoldable mutual
  unfolding value_at after_item after_field after_key skip_ws parse_string

  pub parse_value : ℕ → ℕ → Bytes → Result Value
  parse_value zero depth text = stuck
  parse_value (suc f) depth text =
      if ltb 128 depth
      then failed
      else value_at (parse_items f (suc depth)) (parse_fields f (suc depth)) (skip_ws text)

  -- The loop of `parse_arr`, whose values stand at the depth given.
  pub parse_items : ℕ → ℕ → Bytes → Result Items
  parse_items zero depth text = stuck
  parse_items (suc f) depth text =
      bind (parse_value f depth text) (λ v rest. after_item (parse_items f depth) v (skip_ws rest))

  pub parse_fields : ℕ → ℕ → Bytes → Result Fields
  parse_fields zero depth text = stuck
  parse_fields (suc f) depth text = bind (parse_string (skip_ws text)) (λ k rest.
      bind (after_key (parse_value f depth) (skip_ws rest))
        (λ v rest'. after_field (parse_fields f depth) k v (skip_ws rest')))

-- The whole text, with blanks around the value.
unfoldable pub finish : Value → Bytes → Result Value
finish v [] = ok v []
finish v (c ∷ rest) = failed

-- Each call of `parse_value` or of a loop takes a byte, or comes from one that does.
unfoldable pub parse : Bytes → Result Value
unfolding parse_value finish skip_ws
parse text =
    bind (parse_value (2 * length text + 1) 0 (skip_ws text)) (λ v rest. finish v (skip_ws rest))
