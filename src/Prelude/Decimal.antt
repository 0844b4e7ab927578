-- ===== src/Prelude/Decimal.antt =====
-- Numbers in decimal, as `std::to_string` and the streams of the C++ write them, and as a stream
-- reads them.
use Prim.Native.Nat.{ℕ, zero, suc, ◌+◌, ◌-◌, ◌*◌, ◌/◌, ◌%◌, ◌^◌, ◌<◌}
use mathlib.Core.Path.{◌≡◌, refl, ap, ◌∙◌}
use mathlib.Core.Bool.{Bool, true, ◌&&◌, ◌||◌}
use mathlib.Core.List.{[], ◌∷◌, ◌++◌, append_assoc}
use mathlib.Core.Logic.{inl, inr}
use native.Mathlib.Omega.{arith}
use desiree_ia.Prelude.Tests.{◌==◌, leb, ltb, if◌then◌else◌, Bool-cases}
use desiree_ia.Prelude.Text.{Bytes, is_digit}

-- `std::isspace` in the locale of C.
abbrev pub is_space : ℕ → Bool
is_space c = c == b' ' || (leb 9 c && leb c 13)

-- The decimal digits of a number of no more than `f` of them.
unfoldable pub digits : ℕ → ℕ → Bytes
digits zero n = []
digits (suc f) n =
    let rest = digits f (n / 10) in
    if ltb n 10 then (b'0' + n) ∷ [] else rest ++ (b'0' + n % 10) ∷ []

-- The number that digits at the front of a text continue, and what is behind them.
unfoldable pub scan : ℕ → Bytes → ℕ × Bytes
scan acc [] = (acc, [])
scan acc (c ∷ text) = if is_digit c then scan (acc * 10 + (c - b'0')) text else (acc, c ∷ text)

scan-digit :
    (acc d : ℕ) (text : Bytes) → d < 10 → scan acc ((b'0' + d) ∷ text) ≡ scan (acc * 10 + d) text
unfolding scan
scan-digit acc d text h =
    let is : is_digit (b'0' + d) ≡ true = ground arith in
    let back : b'0' + d - b'0' ≡ d = omega arith in rw (is, back) refl

scan-large :
    (f n : ℕ) (text : Bytes)
    → ((rest : Bytes) → scan 0 (digits f (n / 10) ++ rest) ≡ scan (n / 10) rest)
    → scan 0 ((digits f (n / 10) ++ (b'0' + n % 10) ∷ []) ++ text) ≡ scan n text
scan-large f n text ih =
    let sum : n / 10 * 10 + n % 10 ≡ n = omega arith in
    ap (scan 0) (append_assoc (digits f (n / 10)) ((b'0' + n % 10) ∷ []) text)
    ∙ ih ((b'0' + n % 10) ∷ text)
    ∙ scan-digit (n / 10) (n % 10) text (omega arith)
    ∙ ap (λ m. scan m text) sum

start : (n : ℕ) → 0 * 10 + n ≡ n
start n = omega arith

pub scan-digits : (f n : ℕ) (text : Bytes) → n < 10 ^ f → scan 0 (digits f n ++ text) ≡ scan n text
unfolding digits
scan-digits zero n text h = let same : n ≡ 0 = omega arith in rw same refl
scan-digits (suc f) n text h = elim (Bool-cases (ltb n 10)) [
  | inl e ↦ rw (e, digits) (scan-digit 0 n text (ground arith) ∙ ap (λ m. scan m text) (start n))
  | inr e ↦ rw (e, digits) (scan-large f n text (λ rest. scan-digits f (n / 10) rest (omega arith)))
]

-- The first of the digits.
pub digits-first :
    (f n : ℕ)
    → n < 10 ^ suc f
    → (c : ℕ) × (rest : Bytes) × (digits (suc f) n ≡ c ∷ rest) × (is_digit c ≡ true)
unfolding digits
digits-first zero n h =
    let e : ltb n 10 ≡ true = ground arith in rw (e, digits) (b'0' + n, [], refl, ground arith)
digits-first (suc f) n h = elim (Bool-cases (ltb n 10)) [
  | inl e ↦ rw (e, digits) (b'0' + n, [], refl, ground arith)
  | inr e ↦
      let (c, rest, d, is) = digits-first f (n / 10) (omega arith) in
      rw e (c, rest ++ (b'0' + n % 10) ∷ [], ap (λ l. l ++ (b'0' + n % 10) ∷ []) d, is)
]
