-- ===== src/DecisionJson/Ends.antt =====
-- models/decision_json.h, `parse_value`, `parse_arr`, `parse_obj` and `parse`: whether they end.
use desiree_ia.Prelude.{
  ℕ, zero, suc, ◌+◌, ◌*◌, ◌≤◌, ◌<◌, [], ◌∷◌, ◌≢◌, length, ltb, ◌==◌, Bytes, is_prefix, arith,
  Bool-cases, inl, inr,
}
use desiree_ia.DecisionJson.Values.{
  Value, Items, Fields, no_items, item, no_fields, field, obj, arr, str, Result, ok, failed, stuck,
  bind,
}
use desiree_ia.DecisionJson.Text.{skip_ws}
use desiree_ia.DecisionJson.Parser.{
  open_items, open_fields, value_at, after_item, after_field, after_key, parse_value, parse_items,
  parse_fields, finish, parse,
}
use desiree_ia.DecisionJson.Fits.{
  Fits, Fits-bind, Fits-le, Fits-if, drop-le, skip_ws-le, parse_string-Fits, parse_num-Fits,
}

-- A function that ends on every text of fewer bytes.
abbrev Ends {ℓ} : {A : Type ℓ} → ℕ → (Bytes → Result A) → Type 0
Ends n p = (text : Bytes) → length text < n → Fits (length text) (p text)

Ends-skip_ws {ℓ} :
    {A : Type ℓ} (n : ℕ) (p : Bytes → Result A)
    → Ends n p
    → (text : Bytes) → length text < n
    → Fits (length text) (p (skip_ws text))
Ends-skip_ws n p h text le =
    let shorter = skip_ws-le text in Fits-le _ _ _ shorter (h (skip_ws text) (omega arith))

open_items-Ends : (n : ℕ) (items : Bytes → Result Items) → Ends n items → Ends n (open_items items)
unfolding open_items
open_items-Ends n items h [] le = h [] le
open_items-Ends n items h (c ∷ text) le = elim (Bool-cases (c == b']')) [
  | inl e ↦ rw e omega arith
  | inr e ↦ rw e (h (c ∷ text) le)
]

open_fields-Ends :
    (n : ℕ) (fields : Bytes → Result Fields) → Ends n fields → Ends n (open_fields fields)
unfolding open_fields
open_fields-Ends n fields h [] le = h [] le
open_fields-Ends n fields h (c ∷ text) le = elim (Bool-cases (c == b'}')) [
  | inl e ↦ rw e omega arith
  | inr e ↦ rw e (h (c ∷ text) le)
]

-- A result that is only packed keeps what is left.
pub Fits-map {ℓ κ} :
    {A : Type ℓ} {B : Type κ} (n m : ℕ) (r : Result A) (k : A → B)
    → n ≤ m
    → Fits n r
    → Fits m (bind r (λ a rest. ok (k a) rest))
Fits-map n m r k le h = Fits-bind n m r _ h (λ a rest shorter. omega arith)

value_at-Ends :
    (n : ℕ) (items : Bytes → Result Items) (fields : Bytes → Result Fields)
    → Ends n items
    → Ends n fields
    → (text : Bytes) → length text ≤ n
    → Fits (length text) (value_at items fields text)
unfolding value_at
value_at-Ends n items fields hi hf [] le = tt
value_at-Ends n items fields hi hf (c ∷ text) le =
    Fits-if (c == b'{') _ _ _
      (Fits-map (length text) _ _ obj (omega arith)
        (Ends-skip_ws n _ (open_fields-Ends n fields hf) text (omega arith)))
      (Fits-if (c == b'[') _ _ _
        (Fits-map (length text) _ _ arr (omega arith)
          (Ends-skip_ws n _ (open_items-Ends n items hi) text (omega arith)))
        (Fits-if (c == b'"') _ _ _
          (Fits-map (suc (length text)) _ _ str (omega arith) (parse_string-Fits (c ∷ text)))
          (Fits-if (is_prefix (b'n' ∷ b'u' ∷ b'l' ∷ b'l' ∷ []) (c ∷ text)) _ _ _ (drop-le 3 text) (
            Fits-if (is_prefix (b't' ∷ b'r' ∷ b'u' ∷ b'e' ∷ []) (c ∷ text)) _ _ _ (drop-le 3 text) (
              Fits-if (is_prefix (b'f' ∷ b'a' ∷ b'l' ∷ b's' ∷ b'e' ∷ []) (c ∷ text)) _ _ _
                (drop-le 4 text) (parse_num-Fits (c ∷ text)))))))

after_item-Fits :
    (n : ℕ) (items : Bytes → Result Items) (v : Value) (text : Bytes)
    → Ends n items
    → length text ≤ n
    → Fits (length text) (after_item items v text)
unfolding after_item
after_item-Fits n items v [] h le = tt
after_item-Fits n items v (c ∷ text) h le =
    Fits-if (c == b',') _ _ _
      (Fits-map (length text) _ _ (item v) (omega arith) (h text (omega arith)))
      (Fits-if (c == b']') (suc (length text)) (ok (item v no_items) text) failed (omega arith) tt)

after_field-Fits :
    (n : ℕ) (fields : Bytes → Result Fields) (k : Bytes) (v : Value) (text : Bytes)
    → Ends n fields
    → length text ≤ n
    → Fits (length text) (after_field fields k v text)
unfolding after_field
after_field-Fits n fields k v [] h le = tt
after_field-Fits n fields k v (c ∷ text) h le =
    Fits-if (c == b',') _ _ _
      (Fits-map (length text) _ _ (field k v) (omega arith) (h text (omega arith)))
      (Fits-if (c == b'}') (suc (length text)) (ok (field k v no_fields) text) failed (omega arith)
        tt)

after_key-Ends :
    (n : ℕ) (read : Bytes → Result Value)
    → Ends n read
    → (text : Bytes) → length text ≤ n
    → Fits (length text) (after_key read text)
unfolding after_key
after_key-Ends n read h [] le = tt
after_key-Ends n read h (c ∷ text) le =
    Fits-if (c == b':') (suc (length text)) (read text) failed
      (Fits-le (length text) _ _ (omega arith) (h text (omega arith))) tt

-- A bound above twice the bytes that are left is enough.
mutual
  unfolding parse_value parse_items parse_fields

  parse_value-Fits :
      (f depth : ℕ) (text : Bytes)
      → 2 * length text < f
      → Fits (length text) (parse_value f depth text)
  parse_value-Fits zero depth text h = absurd (omega arith)
  parse_value-Fits (suc f) depth text h =
      let shorter = skip_ws-le text in
      Fits-if (ltb 128 depth) (length text) failed _ tt (
        Fits-le (length (skip_ws text)) _ _ shorter (
          value_at-Ends (length text) _ _ (λ t lt. parse_items-Fits f (suc depth) t (omega arith))
            (λ t lt. parse_fields-Fits f (suc depth) t (omega arith)) (skip_ws text) shorter))

  parse_items-Fits :
      (f depth : ℕ) (text : Bytes)
      → 2 * length text + 1 < f
      → Fits (length text) (parse_items f depth text)
  parse_items-Fits zero depth text h = absurd (omega arith)
  parse_items-Fits (suc f) depth text h =
      Fits-bind (length text) (length text) _ _ (parse_value-Fits f depth text (omega arith))
        (λ v rest le.
          let shorter = skip_ws-le rest in
          Fits-le (length (skip_ws rest)) _ _ (omega arith) (
            after_item-Fits (length text) _ v (skip_ws rest)
              (λ t lt. parse_items-Fits f depth t (omega arith)) (omega arith)))

  parse_fields-Fits :
      (f depth : ℕ) (text : Bytes)
      → 2 * length text + 1 < f
      → Fits (length text) (parse_fields f depth text)
  parse_fields-Fits zero depth text h = absurd (omega arith)
  parse_fields-Fits (suc f) depth text h =
      Fits-bind (length (skip_ws text)) (length text) _ _ (parse_string-Fits (skip_ws text))
        (λ k rest le.
          let blanks = skip_ws-le text in
          let shorter = skip_ws-le rest in
          Fits-bind (length (skip_ws rest)) (length text) _ _
            (after_key-Ends (length text) (parse_value f depth)
              (λ t lt. parse_value-Fits f depth t (omega arith)) (skip_ws rest) (omega arith))
            (λ v rest' le'.
              let shorter' = skip_ws-le rest' in
              Fits-le (length (skip_ws rest')) _ _ (omega arith) (
                after_field-Fits (length text) _ k v (skip_ws rest')
                  (λ t lt. parse_fields-Fits f depth t (omega arith)) (omega arith))))

finish-Fits : (v : Value) (text : Bytes) → Fits (length text) (finish v text)
unfolding finish
finish-Fits v [] = omega arith
finish-Fits v (c ∷ text) = tt

parse-Fits : (text : Bytes) → Fits (length text) (parse text)
unfolding parse
parse-Fits text =
    let blanks = skip_ws-le text in
    Fits-bind (length (skip_ws text)) (length text) _ _
      (parse_value-Fits (2 * length text + 1) 0 (skip_ws text) (omega arith))
      (λ v rest le.
        let shorter = skip_ws-le rest in
        Fits-le (length (skip_ws rest)) _ _ (omega arith) (finish-Fits v (skip_ws rest)))

pub Fits-not_stuck {ℓ} : {A : Type ℓ} (n : ℕ) (r : Result A) → Fits n r → r ≢ stuck
Fits-not_stuck n (ok a rest) h = λ e. cc
Fits-not_stuck n failed h = λ e. cc
Fits-not_stuck n stuck h = absurd h

-- The parser of any text ends, with a value or with a failure, and never because the bound
-- on the depth of its calls is met.
pub parse-ne-stuck : (text : Bytes) → parse text ≢ stuck
parse-ne-stuck text = Fits-not_stuck (length text) (parse text) (parse-Fits text)
