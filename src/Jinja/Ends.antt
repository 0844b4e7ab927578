-- ===== src/Jinja/Ends.antt =====
-- core/jinja.cpp, `JsonParser::value` and `parse_json`: whether they end.
use desiree_ia.Prelude.{
  ℕ, zero, suc, ◌+◌, ◌*◌, ◌≤◌, ◌<◌, [], ◌∷◌, ◌≢◌, length, ◌==◌, Bytes, is_prefix, arith, Bool-cases,
  inl, inr,
}
use desiree_ia.DecisionJson.Values.{Result, ok, failed, stuck}
use desiree_ia.DecisionJson.Fits.{Fits, Fits-bind, Fits-le, Fits-if, drop-le}
use desiree_ia.DecisionJson.Ends.{Fits-map, Fits-not_stuck}
use desiree_ia.Jinja.Values.{Value, Items, Fields, no_items, item, no_fields, field, obj, arr, str}
use desiree_ia.Jinja.Text.{skip_ws}
use desiree_ia.Jinja.Parser.{
  open_items, open_fields, value_at, after_item, after_field, after_key, parse_value, parse_items,
  parse_fields, finish, parse_json,
}
use desiree_ia.Jinja.Fits.{skip_ws-le, parse_str-Fits, parse_num-Fits}

-- A function that ends on every text of fewer bytes.
abbrev Ends {ℓ} : {A : Type ℓ} → ℕ → (Bytes → Result A) → Type 0
Ends n p = (text : Bytes) → length text < n → Fits (length text) (p text)

Ends-skip_ws {ℓ} :
    {A : Type ℓ} (n : ℕ) (p : Bytes → Result A)
    → Ends n p
    → (text : Bytes) → length text < n
    → Fits (length text) (p (skip_ws text))
Ends-skip_ws n p h text le =
    let shorter = skip_ws-le text in Fits-le _ _ _ shorter (h (skip_ws text) (omega arith))

open_items-Ends : (n : ℕ) (items : Bytes → Result Items) → Ends n items → Ends n (open_items items)
unfolding open_items
open_items-Ends n items h [] le = h [] le
open_items-Ends n items h (c ∷ text) le = elim (Bool-cases (c == b']')) [
  | inl e ↦ rw e omega arith
  | inr e ↦ rw e (h (c ∷ text) le)
]

open_fields-Ends :
    (n : ℕ) (fields : Bytes → Result Fields) → Ends n fields → Ends n (open_fields fields)
unfolding open_fields
open_fields-Ends n fields h [] le = h [] le
open_fields-Ends n fields h (c ∷ text) le = elim (Bool-cases (c == b'}')) [
  | inl e ↦ rw e omega arith
  | inr e ↦ rw e (h (c ∷ text) le)
]

value_at-Ends :
    (n : ℕ) (items : Bytes → Result Items) (fields : Bytes → Result Fields)
    → Ends n items
    → Ends n fields
    → (text : Bytes) → length text ≤ n
    → Fits (length text) (value_at items fields text)
unfolding value_at
value_at-Ends n items fields hi hf [] le = tt
value_at-Ends n items fields hi hf (c ∷ text) le =
    Fits-if (c == b'{') _ _ _
      (Fits-map (length text) _ _ obj (omega arith)
        (Ends-skip_ws n _ (open_fields-Ends n fields hf) text (omega arith)))
      (Fits-if (c == b'[') _ _ _
        (Fits-map (length text) _ _ arr (omega arith)
          (Ends-skip_ws n _ (open_items-Ends n items hi) text (omega arith)))
        (Fits-if (c == b'"') _ _ _
          (Fits-map (suc (length text)) _ _ str (omega arith) (parse_str-Fits (c ∷ text)))
          (Fits-if (is_prefix (b't' ∷ b'r' ∷ b'u' ∷ b'e' ∷ []) (c ∷ text)) _ _ _ (drop-le 3 text) (
            Fits-if (is_prefix (b'f' ∷ b'a' ∷ b'l' ∷ b's' ∷ b'e' ∷ []) (c ∷ text)) _ _ _
              (drop-le 4 text)
              (Fits-if (is_prefix (b'n' ∷ b'u' ∷ b'l' ∷ b'l' ∷ []) (c ∷ text)) _ _ _
                (drop-le 3 text) (parse_num-Fits (c ∷ text)))))))

after_item-Fits :
    (n : ℕ) (items : Bytes → Result Items) (v : Value) (text : Bytes)
    → Ends n items
    → length text ≤ n
    → Fits (length text) (after_item items v text)
unfolding after_item
after_item-Fits n items v [] h le = tt
after_item-Fits n items v (c ∷ text) h le =
    Fits-if (c == b',') _ _ _
      (Fits-map (length text) _ _ (item v) (omega arith) (h text (omega arith)))
      (Fits-if (c == b']') (suc (length text)) (ok (item v no_items) text) failed (omega arith) tt)

after_field-Fits :
    (n : ℕ) (fields : Bytes → Result Fields) (k : Bytes) (v : Value) (text : Bytes)
    → Ends n fields
    → length text ≤ n
    → Fits (length text) (after_field fields k v text)
unfolding after_field
after_field-Fits n fields k v [] h le = tt
after_field-Fits n fields k v (c ∷ text) h le =
    Fits-if (c == b',') _ _ _
      (Fits-map (length text) _ _ (field k v) (omega arith) (h text (omega arith)))
      (Fits-if (c == b'}') (suc (length text)) (ok (field k v no_fields) text) failed (omega arith)
        tt)

after_key-Ends :
    (n : ℕ) (read : Bytes → Result Value)
    → Ends n read
    → (text : Bytes) → length text ≤ n
    → Fits (length text) (after_key read text)
unfolding after_key
after_key-Ends n read h [] le = tt
after_key-Ends n read h (c ∷ text) le =
    Fits-if (c == b':') (suc (length text)) (read text) failed
      (Fits-le (length text) _ _ (omega arith) (h text (omega arith))) tt

-- A bound above twice the bytes that are left is enough.
mutual
  unfolding parse_value parse_items parse_fields

  parse_value-Fits :
      (f : ℕ) (text : Bytes) → 2 * length text < f → Fits (length text) (parse_value f text)
  parse_value-Fits zero text h = absurd (omega arith)
  parse_value-Fits (suc f) text h =
      let shorter = skip_ws-le text in
      Fits-le (length (skip_ws text)) _ _ shorter (
        value_at-Ends (length text) _ _ (λ t lt. parse_items-Fits f t (omega arith))
          (λ t lt. parse_fields-Fits f t (omega arith)) (skip_ws text) shorter)

  parse_items-Fits :
      (f : ℕ) (text : Bytes) → 2 * length text + 1 < f → Fits (length text) (parse_items f text)
  parse_items-Fits zero text h = absurd (omega arith)
  parse_items-Fits (suc f) text h =
      Fits-bind (length text) (length text) _ _ (parse_value-Fits f text (omega arith))
        (λ v rest le.
          let shorter = skip_ws-le rest in
          Fits-le (length (skip_ws rest)) _ _ (omega arith) (
            after_item-Fits (length text) _ v (skip_ws rest)
              (λ t lt. parse_items-Fits f t (omega arith)) (omega arith)))

  parse_fields-Fits :
      (f : ℕ) (text : Bytes) → 2 * length text + 1 < f → Fits (length text) (parse_fields f text)
  parse_fields-Fits zero text h = absurd (omega arith)
  parse_fields-Fits (suc f) text h =
      Fits-bind (length (skip_ws text)) (length text) _ _ (parse_str-Fits (skip_ws text))
        (λ k rest le.
          let blanks = skip_ws-le text in
          let shorter = skip_ws-le rest in
          Fits-bind (length (skip_ws rest)) (length text) _ _
            (after_key-Ends (length text) (parse_value f)
              (λ t lt. parse_value-Fits f t (omega arith)) (skip_ws rest) (omega arith))
            (λ v rest' le'.
              let shorter' = skip_ws-le rest' in
              Fits-le (length (skip_ws rest')) _ _ (omega arith) (
                after_field-Fits (length text) _ k v (skip_ws rest')
                  (λ t lt. parse_fields-Fits f t (omega arith)) (omega arith))))

finish-Fits : (v : Value) (text : Bytes) → Fits (length text) (finish v text)
unfolding finish
finish-Fits v [] = omega arith
finish-Fits v (c ∷ text) = tt

parse_json-Fits : (text : Bytes) → Fits (length text) (parse_json text)
unfolding parse_json
parse_json-Fits text =
    Fits-bind (length text) (length text) _ _
      (parse_value-Fits (2 * length text + 1) text (omega arith))
      (λ v rest le.
        let shorter = skip_ws-le rest in
        Fits-le (length (skip_ws rest)) _ _ (omega arith) (finish-Fits v (skip_ws rest)))

-- `parse_json` ends on any text, with a value or with an error.
pub parse_json-ne-stuck : (text : Bytes) → parse_json text ≢ stuck
parse_json-ne-stuck text = Fits-not_stuck (length text) (parse_json text) (parse_json-Fits text)
