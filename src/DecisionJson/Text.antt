-- ===== src/DecisionJson/Text.antt =====
-- models/decision_json.h: `skip_ws`, `put_utf8`, `hex4`, `parse_string` and `parse_num`.
use desiree_ia.Prelude.{
  ℕ, zero, suc, ◌+◌, ◌-◌, ◌*◌, ◌/◌, ◌%◌, Bool, ◌&&◌, ◌||◌, Option, none, some, [], ◌∷◌, ◌++◌,
  length, is_empty, is_digit, ltb, leb, ◌==◌, if◌then◌else◌, Bytes,
}
use desiree_ia.DecisionJson.Values.{Value, num, Result, ok, failed, stuck, bind}

unfoldable pub skip_ws : Bytes → Bytes
skip_ws [] = []
skip_ws (c ∷ text) = if leb c b' ' then skip_ws text else c ∷ text

unfoldable pub put_utf8 : ℕ → Bytes
put_utf8 cp =
    if ltb cp 0x80
    then cp ∷ []
    else if ltb cp 0x800
    then (0xC0 + cp / 64) ∷ (0x80 + cp % 64) ∷ []
    else if ltb cp 0x10000
    then (0xE0 + cp / 4096) ∷ (0x80 + cp / 64 % 64) ∷ (0x80 + cp % 64) ∷ []
    else (0xF0 + cp / 262144)
      ∷ (0x80 + cp / 4096 % 64)
      ∷ (0x80 + cp / 64 % 64)
      ∷ (0x80 + cp % 64)
      ∷ []

unfoldable pub hex_value : ℕ → Option ℕ
hex_value c =
    if is_digit c
    then some (c - b'0')
    else if leb b'a' c && leb c b'f'
    then some (c - b'a' + 10)
    else if leb b'A' c && leb c b'F'
    then some (c - b'A' + 10)
    else none

-- The loop of `hex4` over the digits that are left.
unfoldable pub hex_digits : ℕ → ℕ → Bytes → Option (ℕ × Bytes)
unfolding hex_value
hex_digits zero v text = some (v, text)
hex_digits (suc n) v [] = none
hex_digits (suc n) v (c ∷ text) = elim (hex_value c) [
  | none ↦ none
  | some d ↦ hex_digits n (v * 16 + d) text
]

unfoldable pub hex4 : Bytes → Option (ℕ × Bytes)
unfolding hex_digits
hex4 text = hex_digits 4 0 text

-- The escapes of one character.
unfoldable pub escape : ℕ → Option ℕ
escape e =
    if e == b'n'
    then some 10
    else if e == b't'
    then some 9
    else if e == b'r'
    then some 13
    else if e == b'b'
    then some 8
    else if e == b'f'
    then some 12
    else if e == b'"' || e == b'\\' || e == b'/'
    then some e
    else none

-- `\u` and four digits, which are read: a second half that fits is taken in, or nothing more.
unfoldable pub low_half : ℕ → Bytes → ℕ × Bytes
unfolding hex4
low_half cp (b ∷ u ∷ text) =
    if leb 0xD800 cp && leb cp 0xDBFF && b == b'\\' && u == b'u'
    then elim (hex4 text) [
      | none ↦ (cp, b ∷ u ∷ text)
      | some (lo, rest) ↦
          if leb 0xDC00 lo && leb lo 0xDFFF
          then (0x10000 + (cp - 0xD800) * 1024 + (lo - 0xDC00), rest)
          else (cp, b ∷ u ∷ text)
    ]
    else (cp, b ∷ u ∷ text)
low_half cp text = (cp, text)

-- What stands after a backslash: the bytes it gives.
unfoldable pub parse_escape : Bytes → Result Bytes
unfolding escape hex4 low_half put_utf8
parse_escape [] = failed
parse_escape (e ∷ text) =
    if e == b'u'
    then elim (hex4 text) [
      | none ↦ failed
      | some (cp, rest) ↦ ok (put_utf8 (low_half cp rest).0) (low_half cp rest).1
    ]
    else elim (escape e) [ none ↦ failed | some c ↦ ok (c ∷ []) text ]

-- The loop of `parse_string`, after the opening quote.
unfoldable pub string_body : ℕ → Bytes → Result Bytes
unfolding parse_escape
string_body f [] = failed
string_body zero (c ∷ text) = stuck
string_body (suc f) (c ∷ text) =
    if c == b'"'
    then ok [] text
    else (let part : Result Bytes = if c == b'\\' then parse_escape text else ok (c ∷ []) text in
        bind part
          (λ bytes rest. bind (string_body f rest) (λ more rest'. ok (bytes ++ more) rest')))

unfoldable pub parse_string : Bytes → Result Bytes
unfolding string_body
parse_string [] = failed
parse_string (c ∷ text) = if c == b'"' then string_body (length text) text else failed

abbrev pub is_number_byte : ℕ → Bool
is_number_byte c = is_digit c || c == b'-' || c == b'+' || c == b'.' || c == b'e' || c == b'E'

-- The bytes of a number at the front, and the rest.
unfoldable pub number_bytes : Bytes → Bytes × Bytes
number_bytes [] = ([], [])
number_bytes (c ∷ text) =
    if is_number_byte c then (c ∷ (number_bytes text).0, (number_bytes text).1) else ([], c ∷ text)

unfoldable pub parse_num : Bytes → Result Value
unfolding number_bytes
parse_num text =
    if is_empty (number_bytes text).0
    then failed
    else ok (num (number_bytes text).0) (number_bytes text).1
