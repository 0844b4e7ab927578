-- ===== src/DecisionJson/Steps.antt =====
-- models/decision_json.h: the loops of `parse_arr` and `parse_obj` at what `write_value` gives.
use desiree_ia.Prelude.{
  ℕ, suc, ◌+◌, true, false, ◌∷◌, ◌++◌, ◌≡◌, refl, ap, ◌∙◌, length, Bytes, arith, append_assoc,
  length-append,
}
use desiree_ia.DecisionJson.Values.{
  Value, Items, Fields, arr, obj, no_items, item, no_fields, field, Result, ok, bind,
}
use desiree_ia.DecisionJson.Writer.{write_string, write_value, write_items, write_fields}
use desiree_ia.DecisionJson.Text.{skip_ws, parse_string}
use desiree_ia.DecisionJson.Parser.{
  open_items, open_fields, after_item, after_field, after_key, parse_value, parse_fields, parse,
}
use desiree_ia.DecisionJson.Strings.{parse_string-write_string}
use desiree_ia.DecisionJson.Readable.{
  Readable, write_value-Begins, skip_ws-Begins, open_items-Begins,
}

-- The steps of the parser at what is written, where the rest of it is known.
pub open_items-item :
    (w : Value) (ys : Items) (d d' : ℕ) (items : Bytes → Result Items) (rest : Bytes)
    → Readable d w
    → items (write_value w ++ (write_items false ys ++ rest)) ≡ ok (item w ys) rest
    → open_items items (skip_ws (write_items true (item w ys) ++ rest)) ≡ ok (item w ys) rest
unfolding write_items
open_items-item w ys d d' items rest h p =
    let whole = write_value w ++ (write_items false ys ++ rest) in
    let begins = write_value-Begins w d (write_items false ys ++ rest) h in
    ap (λ t. open_items items (skip_ws t))
      (append_assoc (write_value w) (write_items false ys) rest)
    ∙ ap (open_items items) (skip_ws-Begins whole begins)
    ∙ open_items-Begins items whole begins
    ∙ p

pub skip_ws-value :
    (w : Value) (d : ℕ) (mid : Bytes)
    → Readable d w
    → skip_ws (b' ' ∷ (write_value w ++ mid)) ≡ write_value w ++ mid
skip_ws-value w d mid h =
    unfold skip_ws in skip_ws-Begins (write_value w ++ mid) (write_value-Begins w d mid h)

pub after_item-comma :
    (items : Bytes → Result Items) (v w : Value) (ys : Items) (rest : Bytes)
    → items (b' ' ∷ (write_value w ++ (write_items false ys ++ rest))) ≡ ok (item w ys) rest
    → after_item items v (skip_ws (write_items false (item w ys) ++ rest))
      ≡ ok (item v (item w ys)) rest
unfolding after_item write_items skip_ws
after_item-comma items v w ys rest e =
    ap (λ t. bind (items (b' ' ∷ t)) (λ xs rest. ok (item v xs) rest))
      (append_assoc (write_value w) (write_items false ys) rest)
    ∙ ap (λ r. bind r (λ xs rest. ok (item v xs) rest)) e

pub after_item-close :
    (items : Bytes → Result Items) (v : Value) (rest : Bytes)
    → after_item items v (skip_ws (write_items false no_items ++ rest)) ≡ ok (item v no_items) rest
unfolding after_item write_items skip_ws
after_item-close items v rest = refl

pub open_items-close :
    (items : Bytes → Result Items) (rest : Bytes)
    → open_items items (skip_ws (write_items true no_items ++ rest)) ≡ ok no_items rest
unfolding open_items write_items skip_ws
open_items-close items rest = refl

-- A key, the colon, and the value after it.
abbrev pub key_text : Bytes → Value → Bytes → Bytes
key_text k w mid = write_string k ++ b':' ∷ b' ' ∷ (write_value w ++ mid)

pub after_key-colon :
    (parse : Bytes → Result Value) (text : Bytes)
    → after_key parse (skip_ws (b':' ∷ text)) ≡ parse text
unfolding after_key skip_ws
after_key-colon parse text = refl

pub key_text-append :
    (k : Bytes) (w : Value) (more rest : Bytes)
    → key_text k w more ++ rest ≡ key_text k w (more ++ rest)
key_text-append k w more rest =
    append_assoc (write_string k) (b':' ∷ b' ' ∷ (write_value w ++ more)) rest
    ∙ ap (λ t. write_string k ++ b':' ∷ b' ' ∷ t) (append_assoc (write_value w) more rest)

pub fields_round :
    (d f : ℕ) (k text mid rest : Bytes) (w : Value) (ys : Fields)
    → skip_ws text ≡ key_text k w mid
    → parse_value f d (b' ' ∷ (write_value w ++ mid)) ≡ ok w mid
    → after_field (parse_fields f d) k w (skip_ws mid) ≡ ok (field k w ys) rest
    → parse_fields (suc f) d text ≡ ok (field k w ys) rest
unfolding parse_fields
fields_round d f k text mid rest w ys e p h =
    let tail = b':' ∷ b' ' ∷ (write_value w ++ mid) in
    ap
      (λ t. bind (parse_string t) (λ j rest.
        bind (after_key (parse_value f d) (skip_ws rest))
          (λ v rest'. after_field (parse_fields f d) j v (skip_ws rest'))))
      e
    ∙ ap
        (λ r. bind r (λ j rest.
          bind (after_key (parse_value f d) (skip_ws rest))
            (λ v rest'. after_field (parse_fields f d) j v (skip_ws rest'))))
        (parse_string-write_string k tail)
    ∙ ap (λ r. bind r (λ v rest'. after_field (parse_fields f d) k v (skip_ws rest')))
        (after_key-colon (parse_value f d) (b' ' ∷ (write_value w ++ mid)) ∙ p)
    ∙ h

pub open_fields-field :
    (k : Bytes) (w : Value) (ys : Fields) (fields : Bytes → Result Fields) (rest : Bytes)
    → fields (key_text k w (write_fields false ys ++ rest)) ≡ ok (field k w ys) rest
    → open_fields fields (skip_ws (write_fields true (field k w ys) ++ rest))
      ≡ ok (field k w ys) rest
unfolding write_fields open_fields skip_ws
open_fields-field k w ys fields rest p =
    ap fields (key_text-append k w (write_fields false ys) rest) ∙ p

pub after_field-comma :
    (fields : Bytes → Result Fields) (j k : Bytes) (v w : Value) (ys : Fields) (rest : Bytes)
    → fields (b' ' ∷ key_text k w (write_fields false ys ++ rest)) ≡ ok (field k w ys) rest
    → after_field fields j v (skip_ws (write_fields false (field k w ys) ++ rest))
      ≡ ok (field j v (field k w ys)) rest
unfolding after_field write_fields skip_ws
after_field-comma fields j k v w ys rest e =
    ap (λ t. bind (fields (b' ' ∷ t)) (λ fs rest. ok (field j v fs) rest))
      (key_text-append k w (write_fields false ys) rest)
    ∙ ap (λ r. bind r (λ fs rest. ok (field j v fs) rest)) e

pub after_field-close :
    (fields : Bytes → Result Fields) (k : Bytes) (v : Value) (rest : Bytes)
    → after_field fields k v (skip_ws (write_fields false no_fields ++ rest))
      ≡ ok (field k v no_fields) rest
unfolding after_field write_fields skip_ws
after_field-close fields k v rest = refl

pub open_fields-close :
    (fields : Bytes → Result Fields) (rest : Bytes)
    → open_fields fields (skip_ws (write_fields true no_fields ++ rest)) ≡ ok no_fields rest
unfolding open_fields write_fields skip_ws
open_fields-close fields rest = refl

pub skip_ws-key :
    (k : Bytes) (w : Value) (mid : Bytes)
    → (skip_ws (key_text k w mid) ≡ key_text k w mid)
      × (skip_ws (b' ' ∷ key_text k w mid) ≡ key_text k w mid)
unfolding skip_ws
skip_ws-key k w mid = (refl, refl)

-- The lengths of what is written.
pub length-items :
    (w : Value) (ys : Items)
    → length (write_items false (item w ys))
      ≡ suc (suc (length (write_value w) + length (write_items false ys)))
unfolding write_items
length-items w ys = omega (arith, length-append (write_value w) (write_items false ys))

pub length-fields :
    (k : Bytes) (w : Value) (ys : Fields)
    → length (write_fields false (field k w ys))
      ≡ suc (
          suc (
            length (write_string k)
            + suc (suc (length (write_value w) + length (write_fields false ys)))))
unfolding write_fields
length-fields k w ys = omega (
  arith,
  length-append (write_string k) (b':' ∷ b' ' ∷ (write_value w ++ write_fields false ys)),
  length-append (write_value w) (write_fields false ys),
)

pub length-arr :
    (w : Value) (ys : Items)
    → length (write_value (arr (item w ys)))
      ≡ suc (length (write_value w) + length (write_items false ys))
unfolding write_value
length-arr w ys = omega (arith, length-append (write_value w) (write_items false ys))

pub length-obj :
    (k : Bytes) (w : Value) (ys : Fields)
    → length (write_value (obj (field k w ys)))
      ≡ suc (
          length (write_string k)
          + suc (suc (length (write_value w) + length (write_fields false ys))))
unfolding write_value
length-obj k w ys = omega (
  arith,
  length-append (write_string k) (b':' ∷ b' ' ∷ (write_value w ++ write_fields false ys)),
  length-append (write_value w) (write_fields false ys),
)
