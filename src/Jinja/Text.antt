-- ===== src/Jinja/Text.antt =====
-- core/jinja.cpp, `JsonParser`: `ws`, `put_utf8`, `hex4`, `str` and the numbers of `value`.
use Prim.Native.Nat.{bit_or}
use desiree_ia.Prelude.{
  ℕ, zero, suc, ◌+◌, ◌-◌, ◌*◌, ◌/◌, ◌%◌, ◌^◌, Bool, false, not, ◌&&◌, ◌||◌, Option, none, some, [],
  ◌∷◌, ◌++◌, length, is_empty, is_digit, ltb, leb, ◌==◌, if◌then◌else◌, Bytes,
}
use desiree_ia.Prelude.Decimal.{is_space}
use desiree_ia.DecisionJson.Values.{Result, ok, failed, stuck, bind}
use desiree_ia.DecisionJson.Text.{hex4}
use desiree_ia.Jinja.Values.{Value, int, float}

unfoldable pub skip_ws : Bytes → Bytes
skip_ws [] = []
skip_ws (c ∷ text) = if is_space c then skip_ws text else c ∷ text

-- `static_cast<char>(lead | (cp >> ...))`, where the number is shifted already.
abbrev pub byte_or : ℕ → ℕ → ℕ
byte_or lead n = bit_or lead n % 256

unfoldable pub put_utf8 : ℕ → Bytes
put_utf8 cp =
    if ltb cp 0x80
    then cp ∷ []
    else if ltb cp 0x800
    then byte_or 0xC0 (cp / 64) ∷ byte_or 0x80 (cp % 64) ∷ []
    else if ltb cp 0x10000
    then byte_or 0xE0 (cp / 4096) ∷ byte_or 0x80 (cp / 64 % 64) ∷ byte_or 0x80 (cp % 64) ∷ []
    else byte_or 0xF0 (cp / 262144)
      ∷ byte_or 0x80 (cp / 4096 % 64)
      ∷ byte_or 0x80 (cp / 64 % 64)
      ∷ byte_or 0x80 (cp % 64)
      ∷ []

-- `0x10000 + ((cp - 0xD800) << 10) + (lo - 0xDC00)` on 32 bits, whatever `lo` is.
abbrev pub joined : ℕ → ℕ → ℕ
joined cp lo = (0x10000 + (cp - 0xD800) * 1024 + (lo + 2 ^ 32 - 0xDC00)) % 2 ^ 32

abbrev pub coded : Option (ℕ × Bytes) → (ℕ → Bytes → Result Bytes) → Result Bytes
coded none k = failed
coded (some (v, rest)) k = k v rest

-- After the four digits of `\u`: the second half of a pair has to be four digits, too.
unfoldable pub second_half : ℕ → Bytes → Result Bytes
unfolding hex4 put_utf8
second_half cp (b ∷ u ∷ text) =
    if leb 0xD800 cp && ltb cp 0xDC00 && b == b'\\' && u == b'u'
    then coded (hex4 text) (λ lo rest. ok (put_utf8 (joined cp lo)) rest)
    else ok (put_utf8 cp) (b ∷ u ∷ text)
second_half cp text = ok (put_utf8 cp) text

abbrev pub escape : ℕ → ℕ
escape c =
    if c == b'n'
    then 10
    else if c == b't'
    then 9
    else if c == b'r'
    then 13
    else if c == b'b'
    then 8
    else if c == b'f'
    then 12
    else c

-- What stands after a backslash: the bytes it gives.
unfoldable pub parse_escape : Bytes → Result Bytes
unfolding hex4 second_half
parse_escape [] = failed
parse_escape (c ∷ text) =
    if c == b'u' then coded (hex4 text) second_half else ok (escape c ∷ []) text

-- The loop of `str` after the opening quote, and the closing one.
unfoldable pub string_body : ℕ → Bytes → Result Bytes
unfolding parse_escape
string_body f [] = failed
string_body zero (c ∷ text) = stuck
string_body (suc f) (c ∷ text) =
    if c == b'"'
    then ok [] text
    else (let part : Result Bytes = if c == b'\\' then parse_escape text else ok (c ∷ []) text in
        bind part
          (λ bytes rest. bind (string_body f rest) (λ more rest'. ok (bytes ++ more) rest')))

-- `s[p]` at the end of the text is a zero byte, which is no quote.
unfoldable pub parse_str : Bytes → Result Bytes
unfolding string_body
parse_str [] = failed
parse_str (c ∷ text) = if c == b'"' then string_body (length text) text else failed

-- `std::strchr` finds the zero byte at the end of its text, too.
abbrev pub is_float_byte : ℕ → Bool
is_float_byte c = c == b'.' || c == b'e' || c == b'E' || c == 0

abbrev pub is_number_byte : ℕ → Bool
is_number_byte c = is_digit c || c == b'+' || c == b'-' || is_float_byte c

unfoldable pub number_bytes : Bytes → Bytes × Bytes
number_bytes [] = ([], [])
number_bytes (c ∷ text) =
    if is_number_byte c then (c ∷ (number_bytes text).0, (number_bytes text).1) else ([], c ∷ text)

unfoldable pub has_float : Bytes → Bool
has_float [] = false
has_float (c ∷ text) = is_float_byte c || has_float text

-- `std::strtoll`: a sign, the digits after it, and the nearest 64-bit integer.
unfoldable pub decimal : Bytes → ℕ → ℕ
decimal [] n = n
decimal (c ∷ text) n = if is_digit c then decimal text (n * 10 + (c - b'0')) else n

abbrev pub at_most : ℕ → ℕ → ℕ
at_most limit n = if ltb limit n then limit else n

unfoldable pub strtoll : Bytes → Bool × ℕ
unfolding decimal
strtoll [] = (false, 0)
strtoll (c ∷ text) =
    if c == b'-'
    then (not (decimal text 0 == 0), at_most (2 ^ 63) (decimal text 0))
    else if c == b'+'
    then (false, at_most (2 ^ 63 - 1) (decimal text 0))
    else (false, at_most (2 ^ 63 - 1) (decimal (c ∷ text) 0))

unfoldable pub number_value : Bytes → Value
unfolding has_float strtoll
number_value text = if has_float text then float text else int (strtoll text).0 (strtoll text).1

unfoldable pub parse_num : Bytes → Result Value
unfolding number_bytes number_value
parse_num text =
    if is_empty (number_bytes text).0
    then failed
    else ok (number_value (number_bytes text).0) (number_bytes text).1
