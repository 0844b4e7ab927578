-- ===== src/Jinja/Fits.antt =====
-- core/jinja.cpp, `JsonParser` on strings, numbers and blanks: how much of the text it leaves.
use desiree_ia.Prelude.{
  ℕ, zero, suc, ◌≤◌, Bool, true, false, Option, none, some, [], ◌∷◌, length, ltb, leb, ◌==◌,
  is_empty, ◌&&◌, if◌then◌else◌, Bytes, arith, Bool-cases, inl, inr,
}
use desiree_ia.DecisionJson.Values.{Result, ok}
use desiree_ia.DecisionJson.Text.{hex4}
use desiree_ia.DecisionJson.Fits.{Fits, Fits-bind, Fits-le, Fits-if, FitsPair, hex4-Fits}
use desiree_ia.Prelude.Decimal.{is_space}
use desiree_ia.Jinja.Text.{
  skip_ws, coded, second_half, escape, parse_escape, string_body, parse_str, number_bytes,
  parse_num, is_number_byte,
}

pub skip_ws-le : (text : Bytes) → length (skip_ws text) ≤ length text
unfolding skip_ws
skip_ws-le [] = omega arith
skip_ws-le (c ∷ text) = elim (Bool-cases (is_space c)) [
  | inl e ↦ rw (e, skip_ws) (let shorter = skip_ws-le text in omega arith)
  | inr e ↦ rw (e, skip_ws) omega arith
]

coded-Fits :
    (n m : ℕ) (o : Option (ℕ × Bytes)) (k : ℕ → Bytes → Result Bytes)
    → FitsPair n o
    → ((v : ℕ) (rest : Bytes) → length rest ≤ n → Fits m (k v rest))
    → Fits m (coded o k)
coded-Fits n m none k h f = tt
coded-Fits n m (some (v, rest)) k h f = f v rest h

second_half-Fits : (cp : ℕ) (text : Bytes) → Fits (length text) (second_half cp text)
unfolding second_half
second_half-Fits cp [] = omega arith
second_half-Fits cp (b ∷ []) = omega arith
second_half-Fits cp (b ∷ u ∷ text) =
    Fits-if (leb 0xD800 cp && ltb cp 0xDC00 && b == b'\\' && u == b'u') (suc (suc (length text))) _
      _ (coded-Fits (length text) _ (hex4 text) _ (hex4-Fits text) (λ lo rest le. omega arith))
      (omega arith)

parse_escape-Fits : (text : Bytes) → Fits (length text) (parse_escape text)
unfolding parse_escape
parse_escape-Fits [] = tt
parse_escape-Fits (c ∷ text) =
    Fits-if (c == b'u') (suc (length text)) _ (ok (escape c ∷ []) text)
      (coded-Fits (length text) _ (hex4 text) second_half (hex4-Fits text)
        (λ v rest le. Fits-le (length rest) _ _ (omega arith) (second_half-Fits v rest)))
      (omega arith)

-- A byte of the string, or an escape.
part-Fits :
    (t : Bool) (c : ℕ) (text : Bytes)
    → Fits (length text) (if t then parse_escape text else ok (c ∷ []) text)
part-Fits true c text = parse_escape-Fits text
part-Fits false c text = omega arith

string_body-Fits :
    (f : ℕ) (text : Bytes) → length text ≤ f → Fits (length text) (string_body f text)
unfolding string_body
string_body-Fits f [] h = unfold string_body in tt
string_body-Fits zero (c ∷ text) h = absurd (omega arith)
string_body-Fits (suc f) (c ∷ text) h = elim (Bool-cases (c == b'"')) [
  | inl q ↦ rw q omega arith
  | inr q ↦ rw q (
      Fits-bind (length text) (suc (length text)) _ _ (part-Fits (c == b'\\') c text)
        (λ bytes rest le.
          Fits-bind (length rest) (suc (length text)) _ _ (string_body-Fits f rest (omega arith))
            (λ more rest' le'. omega arith)))
]

pub parse_str-Fits : (text : Bytes) → Fits (length text) (parse_str text)
unfolding parse_str
parse_str-Fits [] = tt
parse_str-Fits (c ∷ text) = elim (Bool-cases (c == b'"')) [
  | inl q ↦
      rw q (
        Fits-le (length text) _ _ (omega arith) (string_body-Fits (length text) text (omega arith)))
  | inr q ↦ rw q tt
]

number_bytes-le : (text : Bytes) → length (number_bytes text).1 ≤ length text
unfolding number_bytes
number_bytes-le [] = omega arith
number_bytes-le (c ∷ text) = elim (Bool-cases (is_number_byte c)) [
  | inl n ↦ rw n (let shorter = number_bytes-le text in omega arith)
  | inr n ↦ rw n omega arith
]

pub parse_num-Fits : (text : Bytes) → Fits (length text) (parse_num text)
unfolding parse_num
parse_num-Fits text = elim (Bool-cases (is_empty (number_bytes text).0)) [
  | inl e ↦ rw e tt
  | inr e ↦ rw e (number_bytes-le text)
]
