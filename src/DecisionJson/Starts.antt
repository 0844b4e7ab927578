-- ===== src/DecisionJson/Starts.antt =====
-- models/decision_json.h: `parse_value` at the first byte of what `write_value` gives.
use desiree_ia.Prelude.{
  is_prefix, ℕ, suc, ◌≤◌, Bool, true, false, [], ◌∷◌, ◌++◌, ◌≡◌, ◌≢◌, refl, ap, ◌∙◌, ◌==◌, is_empty,
  if◌then◌else◌, Bytes, arith, All,
}
use desiree_ia.DecisionJson.Values.{
  Value, Items, Fields, null, bool, num, str, arr, obj, item, Result, ok, failed, bind,
}
use desiree_ia.DecisionJson.Writer.{write_string, write_value}
use desiree_ia.DecisionJson.Text.{skip_ws, is_number_byte, parse_num}
use desiree_ia.DecisionJson.Parser.{
  open_items, open_fields, value_at, after_item, parse_value, parse_items, parse_fields,
}
use desiree_ia.DecisionJson.Strings.{parse_string-write_string}
use desiree_ia.DecisionJson.Readable.{Stops, number_bytes-append}

-- One round of the loop over items.
pub items_round :
    (d f : ℕ) (text mid rest : Bytes) (v : Value) (xs : Items)
    → parse_value f d text ≡ ok v mid
    → after_item (parse_items f d) v (skip_ws mid) ≡ ok (item v xs) rest
    → parse_items (suc f) d text ≡ ok (item v xs) rest
unfolding parse_items
items_round d f text mid rest v xs e h = rw (e, h) refl

pub parse_value-value_at :
    (d f : ℕ) (text whole : Bytes)
    → d ≤ 128
    → skip_ws text ≡ whole
    → parse_value (suc f) d text ≡ value_at (parse_items f (suc d)) (parse_fields f (suc d)) whole
unfolding parse_value
parse_value-value_at d f text whole h e = ground arith

module _ (items : Bytes → Result Items) (fields : Bytes → Result Fields) (rest : Bytes) where
  pub value_at-parse_num :
      (c : ℕ) (text : Bytes)
      → is_number_byte c ≡ true
      → value_at items fields (c ∷ text) ≡ parse_num (c ∷ text)
  unfolding value_at is_prefix
  value_at-parse_num c text h =
      let h0 : (c == b'{') ≡ false = ground arith in
      let h1 : (c == b'[') ≡ false = ground arith in
      let h2 : (c == b'"') ≡ false = ground arith in
      let h3 : (b'n' == c) ≡ false = ground arith in
      let h4 : (b't' == c) ≡ false = ground arith in
      let h5 : (b'f' == c) ≡ false = ground arith in rw (h0, h1, h2, h3, h4, h5) refl

  pub value_at-num :
      (text : Bytes)
      → text ≢ []
      → All (λ c. is_number_byte c ≡ true) text
      → Stops rest
      → value_at items fields (text ++ rest) ≡ ok (num text) rest
  unfolding parse_num
  value_at-num [] n a s = absurd (n refl)
  value_at-num (c ∷ text) n a s =
      value_at-parse_num c (text ++ rest) a.0
      ∙ ap (λ (p : Bytes × Bytes). if is_empty p.0 then failed else ok (num p.0) p.1)
          (number_bytes-append (c ∷ text) rest a s)

  pub value_at-str : (s : Bytes) → value_at items fields (write_string s ++ rest) ≡ ok (str s) rest
  unfolding value_at
  value_at-str s = ap (λ r. bind r (λ s rest. ok (str s) rest)) (parse_string-write_string s rest)

  pub value_at-word :
      (value_at items fields (write_value null ++ rest) ≡ ok null rest)
      × ((b : Bool) → value_at items fields (write_value (bool b) ++ rest) ≡ ok (bool b) rest)
  unfolding value_at write_value is_prefix
  value_at-word = (refl, bools)
    where
      bools : (b : Bool) → value_at items fields (write_value (bool b) ++ rest) ≡ ok (bool b) rest
      bools true = refl
      bools false = refl

  pub value_at-arr :
      (xs : Items) (text : Bytes)
      → open_items items (skip_ws text) ≡ ok xs rest
      → value_at items fields (b'[' ∷ text) ≡ ok (arr xs) rest
  unfolding value_at
  value_at-arr xs text e = ap (λ r. bind r (λ xs rest. ok (arr xs) rest)) e

  pub value_at-obj :
      (fs : Fields) (text : Bytes)
      → open_fields fields (skip_ws text) ≡ ok fs rest
      → value_at items fields (b'{' ∷ text) ≡ ok (obj fs) rest
  unfolding value_at
  value_at-obj fs text e = ap (λ r. bind r (λ fs rest. ok (obj fs) rest)) e
