-- ===== src/DecisionJson/Strings.antt =====
-- models/decision_json.h, `write_string` and `parse_string`: one after the other.
use desiree_ia.Prelude.{
  ℕ, zero, suc, ◌+◌, ◌*◌, ◌/◌, ◌%◌, ◌≤◌, ◌<◌, Bool, true, false, some, [], ◌∷◌, ◌++◌, ◌≡◌, refl, ap,
  ◌∙◌, length, ltb, ◌==◌, if◌then◌else◌, Bytes, arith, append_assoc, length-append,
}
use desiree_ia.DecisionJson.Values.{ok, bind}
use desiree_ia.DecisionJson.Writer.{hex_digit, write_byte, write_bytes, write_string}
use desiree_ia.DecisionJson.Text.{
  put_utf8, hex_value, hex_digits, hex4, escape, low_half, parse_escape, string_body, parse_string,
}

low_half_below : (cp : ℕ) (t : Bytes) → cp < 0xD800 → low_half cp t ≡ (cp, t)
unfolding low_half
low_half_below cp [] h = refl
low_half_below cp (b ∷ []) h = refl
low_half_below cp (b ∷ u ∷ t) h = ground arith

hex_value-hex_digit : (d : ℕ) → d < 16 → hex_value (hex_digit d) ≡ some d
unfolding hex_value
hex_value-hex_digit d h = ground arith

hex_digits-digit :
    (n v c d : ℕ) (t : Bytes)
    → hex_value c ≡ some d
    → hex_digits (suc n) v (c ∷ t) ≡ hex_digits n (v * 16 + d) t
unfolding hex_digits
hex_digits-digit n v c d t e = rw (e, hex_digits) refl

hex_value-zero : hex_value b'0' ≡ some 0
unfolding hex_value
hex_value-zero = refl

hex4_two :
    (c : ℕ) (t : Bytes)
    → c < 256
    → hex4 (b'0' ∷ b'0' ∷ hex_digit (c / 16) ∷ hex_digit (c % 16) ∷ t) ≡ some (c, t)
unfolding hex4
hex4_two c t h =
    hex_digits-digit 3 0 b'0' 0 (b'0' ∷ hex_digit (c / 16) ∷ hex_digit (c % 16) ∷ t) hex_value-zero
    ∙ hex_digits-digit 2 0 b'0' 0 (hex_digit (c / 16) ∷ hex_digit (c % 16) ∷ t) hex_value-zero
    ∙ hex_digits-digit 1 0 (hex_digit (c / 16)) (c / 16) (hex_digit (c % 16) ∷ t)
        (hex_value-hex_digit (c / 16) (omega arith))
    ∙ hex_digits-digit 0 (0 * 16 + c / 16) (hex_digit (c % 16)) (c % 16) t
        (hex_value-hex_digit (c % 16) (omega arith))
    ∙ unfold hex_digits in ap (λ v. some (v, t)) (omega arith)

parse_escape_control :
    (c : ℕ) (t : Bytes)
    → c < 0x20
    → parse_escape (b'u' ∷ b'0' ∷ b'0' ∷ hex_digit (c / 16) ∷ hex_digit (c % 16) ∷ t)
      ≡ ok (c ∷ []) t
unfolding parse_escape put_utf8
parse_escape_control c t h = ground (arith, hex4_two c t, low_half_below c t)

parse_escape_simple :
    (e c : ℕ) (t : Bytes)
    → (e == b'u') ≡ false
    → escape e ≡ some c
    → parse_escape (e ∷ t) ≡ ok (c ∷ []) t
unfolding parse_escape
parse_escape_simple e c t h k = rw (h, k, parse_escape) refl

escapes :
    (escape b'"' ≡ some b'"')
    × (escape b'\\' ≡ some b'\\')
    × (escape b'n' ≡ some 10)
    × (escape b'r' ≡ some 13)
    × (escape b't' ≡ some 9)
    × (escape b'b' ≡ some 8)
    × (escape b'f' ≡ some 12)
unfolding escape
escapes = (refl, refl, refl, refl, refl, refl, refl)

-- The bytes are read as the one byte `c`, in one round.
abbrev Writes : ℕ → Bytes → Type 0
Writes c bytes =
    (f : ℕ) (t : Bytes)
    → string_body (suc f) (bytes ++ t) ≡ bind (string_body f t) (λ more rest. ok (c ∷ more) rest)

Writes-if :
    (c : ℕ) (b : Bool) (x y : Bytes)
    → (b ≡ true → Writes c x)
    → (b ≡ false → Writes c y)
    → Writes c (if b then x else y)
Writes-if c true x y p q = p refl
Writes-if c false x y p q = q refl

string_body-escaped :
    (f c : ℕ) (text t : Bytes)
    → parse_escape text ≡ ok (c ∷ []) t
    → string_body (suc f) (b'\\' ∷ text) ≡ bind (string_body f t) (λ more rest. ok (c ∷ more) rest)
unfolding string_body
string_body-escaped f c text t e = ground arith

module _ (c : ℕ) where
  Writes-simple :
      (e d : ℕ)
      → (e == b'u') ≡ false
      → escape e ≡ some d
      → (c == d) ≡ true
      → Writes c (b'\\' ∷ e ∷ [])
  Writes-simple e d u k h f t =
      string_body-escaped f c (e ∷ t) t (parse_escape_simple e c t u (k ∙ ap some (ground arith)))

  Writes-plain : (c == b'"') ≡ false → (c == b'\\') ≡ false → Writes c (c ∷ [])
  unfolding string_body
  Writes-plain h k f t = ground arith

  -- Each byte that is written costs one round.
  write_byte-Writes : Writes c (write_byte c)
  unfolding write_byte
  write_byte-Writes =
      let (e0, e1, e2, e3, e4, e5, e6) = escapes in
      Writes-if c (c == b'"') _ _ (Writes-simple b'"' b'"' refl e0) λ n0.
        Writes-if c (c == b'\\') _ _ (Writes-simple b'\\' b'\\' refl e1) λ n1.
          Writes-if c (c == 10) _ _ (Writes-simple b'n' 10 refl e2) λ n2.
            Writes-if c (c == 13) _ _ (Writes-simple b'r' 13 refl e3) λ n3.
              Writes-if c (c == 9) _ _ (Writes-simple b't' 9 refl e4) λ n4.
                Writes-if c (c == 8) _ _ (Writes-simple b'b' 8 refl e5) λ n5.
                  Writes-if c (c == 12) _ _ (Writes-simple b'f' 12 refl e6) λ n6.
                    Writes-if c (ltb c 0x20) _ _
                      (λ h f t.
                        string_body-escaped f c _ t (parse_escape_control c t (ground arith)))
                      (λ h. Writes-plain n0 n1)

length-write_byte_pos : (c : ℕ) → 1 ≤ length (write_byte c)
unfolding write_byte
length-write_byte_pos c = ground arith

string_body-write_bytes :
    (s : Bytes) (f : ℕ) (t : Bytes)
    → length (write_bytes s) < f
    → string_body f (write_bytes s ++ b'"' ∷ t) ≡ ok s t
unfolding write_bytes
string_body-write_bytes s zero t h = absurd (omega arith)
string_body-write_bytes [] (suc f) t h = unfold string_body in refl
string_body-write_bytes (c ∷ s) (suc f) t h =
    let enough : length (write_bytes s) < f =
      omega (arith, length-append (write_byte c) (write_bytes s), length-write_byte_pos c) in
    ap (string_body (suc f)) (append_assoc (write_byte c) (write_bytes s) (b'"' ∷ t))
    ∙ write_byte-Writes c f (write_bytes s ++ b'"' ∷ t)
    ∙ ap (λ r. bind r (λ more rest. ok (c ∷ more) rest)) (string_body-write_bytes s f t enough)

-- What was written of a string is read as that string, whatever bytes it has and whatever follows.
pub parse_string-write_string : (s t : Bytes) → parse_string (write_string s ++ t) ≡ ok s t
unfolding parse_string
parse_string-write_string s t =
    ap (λ r. string_body (length r) r) (append_assoc (write_bytes s) (b'"' ∷ []) t)
    ∙ string_body-write_bytes s (length (write_bytes s ++ b'"' ∷ t)) t
        (omega (arith, length-append (write_bytes s) (b'"' ∷ t)))
