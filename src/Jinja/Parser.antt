-- ===== src/Jinja/Parser.antt =====
-- core/jinja.cpp: `JsonParser::value` and `parse_json`. A thrown error is `failed`. The functions
-- that call each other take a bound on the depth of their calls, and are `stuck` where it is met.
use desiree_ia.Prelude.{
  ℕ, zero, suc, ◌+◌, ◌*◌, true, false, [], ◌∷◌, length, drop, ◌==◌, if◌then◌else◌, Bytes, is_prefix,
}
use desiree_ia.DecisionJson.Values.{Result, ok, failed, stuck, bind}
use desiree_ia.Jinja.Values.{
  Value, Items, Fields, null, bool, str, arr, obj, no_items, item, no_fields, field,
}
use desiree_ia.Jinja.Text.{skip_ws, parse_str, parse_num}

unfoldable pub open_items : (Bytes → Result Items) → Bytes → Result Items
open_items items [] = items []
open_items items (c ∷ text) = if c == b']' then ok no_items text else items (c ∷ text)

unfoldable pub open_fields : (Bytes → Result Fields) → Bytes → Result Fields
open_fields fields [] = fields []
open_fields fields (c ∷ text) = if c == b'}' then ok no_fields text else fields (c ∷ text)

-- `value` at a byte that is no blank.
unfoldable pub value_at : (Bytes → Result Items) → (Bytes → Result Fields) → Bytes → Result Value
unfolding open_items open_fields skip_ws parse_str parse_num
value_at items fields [] = failed
value_at items fields (c ∷ text) =
    if c == b'{'
    then bind (open_fields fields (skip_ws text)) (λ fs rest. ok (obj fs) rest)
    else if c == b'['
    then bind (open_items items (skip_ws text)) (λ xs rest. ok (arr xs) rest)
    else if c == b'"'
    then bind (parse_str (c ∷ text)) (λ s rest. ok (str s) rest)
    else if is_prefix (b't' ∷ b'r' ∷ b'u' ∷ b'e' ∷ []) (c ∷ text)
    then ok (bool true) (drop 3 text)
    else if is_prefix (b'f' ∷ b'a' ∷ b'l' ∷ b's' ∷ b'e' ∷ []) (c ∷ text)
    then ok (bool false) (drop 4 text)
    else if is_prefix (b'n' ∷ b'u' ∷ b'l' ∷ b'l' ∷ []) (c ∷ text)
    then ok null (drop 3 text)
    else parse_num (c ∷ text)

unfoldable pub after_item : (Bytes → Result Items) → Value → Bytes → Result Items
after_item items v [] = failed
after_item items v (c ∷ text) =
    if c == b','
    then bind (items text) (λ xs rest. ok (item v xs) rest)
    else if c == b']'
    then ok (item v no_items) text
    else failed

unfoldable pub after_field : (Bytes → Result Fields) → Bytes → Value → Bytes → Result Fields
after_field fields k v [] = failed
after_field fields k v (c ∷ text) =
    if c == b','
    then bind (fields text) (λ fs rest. ok (field k v fs) rest)
    else if c == b'}'
    then ok (field k v no_fields) text
    else failed

unfoldable pub after_key : (Bytes → Result Value) → Bytes → Result Value
after_key read [] = failed
after_key read (c ∷ text) = if c == b':' then read text else failed

unfoldable mutual
  unfolding value_at after_item after_field after_key skip_ws parse_str

  pub parse_value : ℕ → Bytes → Result Value
  parse_value zero text = stuck
  parse_value (suc f) text = value_at (parse_items f) (parse_fields f) (skip_ws text)

  -- The loop over the items of an array.
  pub parse_items : ℕ → Bytes → Result Items
  parse_items zero text = stuck
  parse_items (suc f) text =
      bind (parse_value f text) (λ v rest. after_item (parse_items f) v (skip_ws rest))

  pub parse_fields : ℕ → Bytes → Result Fields
  parse_fields zero text = stuck
  parse_fields (suc f) text = bind (parse_str (skip_ws text)) (λ k rest.
      bind (after_key (parse_value f) (skip_ws rest))
        (λ v rest'. after_field (parse_fields f) k v (skip_ws rest')))

unfoldable pub finish : Value → Bytes → Result Value
finish v [] = ok v []
finish v (c ∷ rest) = failed

unfoldable pub parse_json : Bytes → Result Value
unfolding parse_value finish skip_ws
parse_json text = bind (parse_value (2 * length text + 1) text) (λ v rest. finish v (skip_ws rest))
