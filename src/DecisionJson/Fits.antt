-- ===== src/DecisionJson/Fits.antt =====
-- models/decision_json.h, the functions on strings, numbers and blanks: how much of the text they
-- leave.
use desiree_ia.Prelude.{
  ℕ, zero, suc, ◌+◌, ◌*◌, ◌≤◌, Bool, true, false, Option, none, some, [], ◌∷◌, length, drop,
  length-drop, leb, ◌==◌, is_empty, ◌&&◌, if◌then◌else◌, Bytes, arith, Bool-cases, Option-cases,
  inl, inr,
}
use desiree_ia.DecisionJson.Values.{Result, ok, failed, stuck, bind}
use desiree_ia.DecisionJson.Text.{
  skip_ws, hex_value, hex_digits, hex4, low_half, escape, parse_escape, string_body, parse_string,
  number_bytes, parse_num, is_number_byte,
}

-- An end with no more than so much text left.
abbrev pub Fits {ℓ} : {A : Type ℓ} → ℕ → Result A → Type 0
Fits n (ok a rest) = length rest ≤ n
Fits n failed = Unit
Fits n stuck = ⊥

pub Fits-bind {ℓ κ} :
    {A : Type ℓ} {B : Type κ} (n m : ℕ) (r : Result A) (k : A → Bytes → Result B)
    → Fits n r
    → ((a : A) (rest : Bytes) → length rest ≤ n → Fits m (k a rest))
    → Fits m (bind r k)
Fits-bind n m (ok a rest) k h f = f a rest h
Fits-bind n m failed k h f = tt
Fits-bind n m stuck k h f = absurd h

pub Fits-le {ℓ} : {A : Type ℓ} (n m : ℕ) (r : Result A) → n ≤ m → Fits n r → Fits m r
Fits-le n m (ok a rest) le h = omega arith
Fits-le n m failed le h = tt
Fits-le n m stuck le h = absurd h

pub Fits-if {ℓ} :
    {A : Type ℓ} (t : Bool) (n : ℕ) (r s : Result A)
    → Fits n r
    → Fits n s
    → Fits n (if t then r else s)
Fits-if true n r s h k = h
Fits-if false n r s h k = k

pub drop-le : (k : ℕ) (text : Bytes) → length (drop k text) ≤ suc (length text)
drop-le k text = let kept = length-drop k text in omega arith

pub skip_ws-le : (text : Bytes) → length (skip_ws text) ≤ length text
unfolding skip_ws
skip_ws-le [] = omega arith
skip_ws-le (c ∷ text) = ground (arith, skip_ws-le text)

abbrev pub FitsPair : ℕ → Option (ℕ × Bytes) → Type 0
FitsPair n none = Unit
FitsPair n (some (v, rest)) = length rest ≤ n

hex_digits-Fits : (n v : ℕ) (text : Bytes) → FitsPair (length text) (hex_digits n v text)
unfolding hex_digits
hex_digits-Fits zero v text = omega arith
hex_digits-Fits (suc n) v [] = tt
hex_digits-Fits (suc n) v (c ∷ text) = elim (Option-cases (hex_value c)) [
  | inl e ↦ rw (e, hex_digits) tt
  | inr (d, e) ↦ ground (arith, hex_digits-Fits n (v * 16 + d) text)
]

pub hex4-Fits : (text : Bytes) → FitsPair (length text) (hex4 text)
unfolding hex4
hex4-Fits text = hex_digits-Fits 4 0 text

-- The second half, or the text as it stands.
chosen-le :
    (t : Bool) (cp : ℕ) (rest text : Bytes) (cp' : ℕ)
    → length rest ≤ length text
    → length (if◌then◌else◌ {A = ℕ × Bytes} t (cp', rest) (cp, text)).1 ≤ length text
chosen-le true cp rest text cp' h = h
chosen-le false cp rest text cp' h = omega arith

low_half-le : (cp : ℕ) (text : Bytes) → length (low_half cp text).1 ≤ length text
unfolding low_half
low_half-le cp [] = omega arith
low_half-le cp (b ∷ []) = omega arith
low_half-le cp (b ∷ u ∷ text) =
    elim (Bool-cases (leb 0xD800 cp && leb cp 0xDBFF && b == b'\\' && u == b'u')) [
      | inl g ↦ elim (Option-cases (hex4 text)) [
        | inl e ↦ rw (g, e) omega arith
        | inr ((lo, rest), e) ↦
            let shorter : length rest ≤ length text = rw e at (hex4-Fits text) in
            rw (g, e)
              (chosen-le (leb 0xDC00 lo && leb lo 0xDFFF) cp rest (b ∷ u ∷ text) _ (omega arith))
      ]
      | inr g ↦ rw g omega arith
    ]

parse_escape-Fits : (text : Bytes) → Fits (length text) (parse_escape text)
unfolding parse_escape
parse_escape-Fits [] = tt
parse_escape-Fits (e ∷ text) = elim (Bool-cases (e == b'u')) [
  | inl u ↦ elim (Option-cases (hex4 text)) [
    | inl n ↦ rw (u, n) tt
    | inr ((cp, rest), n) ↦
        let shorter : length rest ≤ length text = rw n at (hex4-Fits text) in
        rw (u, n) let kept = low_half-le cp rest in omega arith
  ]
  | inr u ↦ elim (Option-cases (escape e)) [
    | inl n ↦ rw (u, n) tt
    | inr (c, n) ↦ rw (u, n) omega arith
  ]
]

-- A byte of the string, or an escape.
part-Fits :
    (t : Bool) (c : ℕ) (text : Bytes)
    → Fits (length text) (if t then parse_escape text else ok (c ∷ []) text)
part-Fits true c text = parse_escape-Fits text
part-Fits false c text = omega arith

string_body-Fits :
    (f : ℕ) (text : Bytes) → length text ≤ f → Fits (length text) (string_body f text)
unfolding string_body
string_body-Fits f [] h = unfold string_body in tt
string_body-Fits zero (c ∷ text) h = absurd (omega arith)
string_body-Fits (suc f) (c ∷ text) h = elim (Bool-cases (c == b'"')) [
  | inl q ↦ rw q omega arith
  | inr q ↦ rw q (
      Fits-bind (length text) (suc (length text)) _ _ (part-Fits (c == b'\\') c text)
        (λ bytes rest le.
          Fits-bind (length rest) (suc (length text)) _ _ (string_body-Fits f rest (omega arith))
            (λ more rest' le'. omega arith)))
]

pub parse_string-Fits : (text : Bytes) → Fits (length text) (parse_string text)
unfolding parse_string
parse_string-Fits [] = tt
parse_string-Fits (c ∷ text) = elim (Bool-cases (c == b'"')) [
  | inl q ↦
      rw q (
        Fits-le (length text) _ _ (omega arith) (string_body-Fits (length text) text (omega arith)))
  | inr q ↦ rw q tt
]

number_bytes-le : (text : Bytes) → length (number_bytes text).1 ≤ length text
unfolding number_bytes
number_bytes-le [] = omega arith
number_bytes-le (c ∷ text) = elim (Bool-cases (is_number_byte c)) [
  | inl n ↦ rw n (let shorter = number_bytes-le text in omega arith)
  | inr n ↦ rw n omega arith
]

pub parse_num-Fits : (text : Bytes) → Fits (length text) (parse_num text)
unfolding parse_num
parse_num-Fits text = elim (Bool-cases (is_empty (number_bytes text).0)) [
  | inl e ↦ rw e tt
  | inr e ↦ rw e (number_bytes-le text)
]
