-- ===== src/DecisionJson/RoundTrip.antt =====
-- models/decision_json.h: what `write_value` gives, read by `parse`.
use mathlib.Core.Path.{subst}
use desiree_ia.Prelude.{
  ℕ, zero, suc, ◌+◌, ◌*◌, ◌≤◌, ◌<◌, true, false, [], ◌∷◌, ◌++◌, ◌≡◌, ap, sym, ◌∙◌, length, Bytes,
  arith, append-nil,
}
use desiree_ia.DecisionJson.Values.{
  Value, Items, Fields, null, bool, num, str, arr, obj, no_items, item, no_fields, field, ok, bind,
}
use desiree_ia.DecisionJson.Writer.{write_value, write_items, write_fields}
use desiree_ia.DecisionJson.Text.{skip_ws}
use desiree_ia.DecisionJson.Parser.{
  open_items, open_fields, after_item, after_field, parse_value, parse_items, parse_fields, finish,
  parse,
}
use desiree_ia.DecisionJson.Readable.{
  Readable, ReadableItems, ReadableFields, Stops, Begins, write_value-Begins, skip_ws-Begins,
  write_items-Stops, write_fields-Stops,
}
use desiree_ia.DecisionJson.Starts.{
  items_round, parse_value-value_at, value_at-num, value_at-str, value_at-word, value_at-arr,
  value_at-obj,
}
use desiree_ia.DecisionJson.Steps.{
  open_items-item, skip_ws-value, after_item-comma, after_item-close, open_items-close, key_text,
  fields_round, open_fields-field, after_field-comma, after_field-close, open_fields-close,
  skip_ws-key, length-items, length-fields, length-arr, length-obj,
}

-- A value at the front, after blanks.
abbrev ReadsValue : Value → Type 0
ReadsValue v =
    (d f : ℕ) (text rest : Bytes)
    → Readable d v
    → Stops rest
    → 2 * length (write_value v) < f
    → skip_ws text ≡ write_value v ++ rest
    → parse_value f d text ≡ ok v rest

-- What follows an item in its array, and a field in its object.
abbrev ReadsItems : Items → Type 0
ReadsItems xs =
    (v : Value) (d f : ℕ) (rest : Bytes)
    → ReadableItems d xs
    → 2 * length (write_items false xs) ≤ f + 1
    → after_item (parse_items f d) v (skip_ws (write_items false xs ++ rest)) ≡ ok (item v xs) rest

abbrev ReadsFields : Fields → Type 0
ReadsFields fs =
    (k : Bytes) (v : Value) (d f : ℕ) (rest : Bytes)
    → ReadableFields d fs
    → 2 * length (write_fields false fs) ≤ f + 1
    → after_field (parse_fields f d) k v (skip_ws (write_fields false fs ++ rest))
      ≡ ok (field k v fs) rest

mutual
  unfolding Readable write_value

  read_value : (v : Value) → ReadsValue v
  read_value v d zero text rest h s l e = absurd (omega arith)
  read_value null d (suc f) text rest h s l e =
      parse_value-value_at d f text _ h e
      ∙ (value_at-word (parse_items f (suc d)) (parse_fields f (suc d)) rest).0
  read_value (bool b) d (suc f) text rest h s l e =
      parse_value-value_at d f text _ h e
      ∙ (value_at-word (parse_items f (suc d)) (parse_fields f (suc d)) rest).1 b
  read_value (num t) d (suc f) text rest h s l e =
      parse_value-value_at d f text _ h.0 e
      ∙ value_at-num (parse_items f (suc d)) (parse_fields f (suc d)) rest t h.1 h.2 s
  read_value (str t) d (suc f) text rest h s l e =
      parse_value-value_at d f text _ h e
      ∙ value_at-str (parse_items f (suc d)) (parse_fields f (suc d)) rest t
  read_value (arr xs) d (suc f) text rest h s l e =
      parse_value-value_at d f text _ h.0 e
      ∙ value_at-arr (parse_items f (suc d)) (parse_fields f (suc d)) rest xs
          (write_items true xs ++ rest) (read_open_items xs (suc d) f rest h.1 l)
  read_value (obj fs) d (suc f) text rest h s l e =
      parse_value-value_at d f text _ h.0 e
      ∙ value_at-obj (parse_items f (suc d)) (parse_fields f (suc d)) rest fs
          (write_fields true fs ++ rest) (read_open_fields fs (suc d) f rest h.1 l)

  read_open_items :
      (xs : Items) (d f : ℕ) (rest : Bytes)
      → ReadableItems d xs
      → 2 * length (write_value (arr xs)) < suc f
      → open_items (parse_items f d) (skip_ws (write_items true xs ++ rest)) ≡ ok xs rest
  read_open_items no_items d f rest h l = open_items-close (parse_items f d) rest
  read_open_items (item w ys) d zero rest h l = absurd (omega (arith, length-arr w ys))
  read_open_items (item w ys) d (suc f) rest h l =
      let mid = write_items false ys ++ rest in
      open_items-item w ys d d (parse_items (suc f) d) rest h.0 (
        items_round d f (write_value w ++ mid) mid rest w ys
          (read_value w d f (write_value w ++ mid) mid h.0 (write_items-Stops ys rest)
            (omega (arith, length-arr w ys))
            (skip_ws-Begins (write_value w ++ mid) (write_value-Begins w d mid h.0)))
          (read_items ys w d f rest h.1 (omega (arith, length-arr w ys))))

  read_open_fields :
      (fs : Fields) (d f : ℕ) (rest : Bytes)
      → ReadableFields d fs
      → 2 * length (write_value (obj fs)) < suc f
      → open_fields (parse_fields f d) (skip_ws (write_fields true fs ++ rest)) ≡ ok fs rest
  read_open_fields no_fields d f rest h l = open_fields-close (parse_fields f d) rest
  read_open_fields (field k w ys) d zero rest h l = absurd (omega (arith, length-obj k w ys))
  read_open_fields (field k w ys) d (suc f) rest h l =
      let mid = write_fields false ys ++ rest in
      open_fields-field k w ys (parse_fields (suc f) d) rest (
        fields_round d f k (key_text k w mid) mid rest w ys (skip_ws-key k w mid).0
          (read_value w d f (b' ' ∷ (write_value w ++ mid)) mid h.0 (write_fields-Stops ys rest)
            (omega (arith, length-obj k w ys)) (skip_ws-value w d mid h.0))
          (read_fields ys k w d f rest h.1 (omega (arith, length-obj k w ys))))

  read_items : (xs : Items) → ReadsItems xs
  read_items no_items v d f rest h l = after_item-close (parse_items f d) v rest
  read_items (item w ys) v d zero rest h l = absurd (omega (arith, length-items w ys))
  read_items (item w ys) v d (suc f) rest h l =
      let mid = write_items false ys ++ rest in
      after_item-comma (parse_items (suc f) d) v w ys rest (
        items_round d f (b' ' ∷ (write_value w ++ mid)) mid rest w ys
          (read_value w d f (b' ' ∷ (write_value w ++ mid)) mid h.0 (write_items-Stops ys rest)
            (omega (arith, length-items w ys)) (skip_ws-value w d mid h.0))
          (read_items ys w d f rest h.1 (omega (arith, length-items w ys))))

  read_fields : (fs : Fields) → ReadsFields fs
  read_fields no_fields k v d f rest h l = after_field-close (parse_fields f d) k v rest
  read_fields (field k w ys) j v d zero rest h l = absurd (omega (arith, length-fields k w ys))
  read_fields (field k w ys) j v d (suc f) rest h l =
      let mid = write_fields false ys ++ rest in
      after_field-comma (parse_fields (suc f) d) j k v w ys rest (
        fields_round d f k (b' ' ∷ key_text k w mid) mid rest w ys (skip_ws-key k w mid).1
          (read_value w d f (b' ' ∷ (write_value w ++ mid)) mid h.0 (write_fields-Stops ys rest)
            (omega (arith, length-fields k w ys)) (skip_ws-value w d mid h.0))
          (read_fields ys k w d f rest h.1 (omega (arith, length-fields k w ys))))

-- A value that is written is read back as that value, where arrays and objects are nested no deeper
-- than 128 and the text of each number is not empty and has digits, signs, points and
-- exponent letters only.
pub parse-write_value : (v : Value) → Readable 0 v → parse (write_value v) ≡ ok v []
unfolding parse finish skip_ws
parse-write_value v h =
    let whole = write_value v in
    let begins : Begins whole = subst Begins (append-nil whole) (write_value-Begins v 0 [] h) in
    let same = skip_ws-Begins whole begins in
    ap (λ r. bind r (λ v rest. finish v (skip_ws rest)))
      (read_value v 0 (2 * length whole + 1) (skip_ws whole) [] h tt (omega arith)
        (ap skip_ws same ∙ same ∙ sym (append-nil whole)))
