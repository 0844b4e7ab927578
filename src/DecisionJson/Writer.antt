-- ===== src/DecisionJson/Writer.antt =====
-- models/decision_json.h: `write_string` and `write_value`.
use desiree_ia.Prelude.{
  ℕ, ◌+◌, ◌-◌, ◌/◌, ◌%◌, Bool, true, false, [], ◌∷◌, ◌++◌, ltb, ◌==◌, if◌then◌else◌, Bytes,
}
use desiree_ia.DecisionJson.Values.{
  Value, Items, Fields, null, bool, num, str, arr, obj, no_items, item, no_fields, field,
}

-- A digit of `%x`.
abbrev pub hex_digit : ℕ → ℕ
hex_digit d = if ltb d 10 then b'0' + d else b'a' + (d - 10)

-- One byte of a string; `\u%04x` of a byte below 0x20 has the two digits of the byte at its end.
unfoldable pub write_byte : ℕ → Bytes
write_byte c =
    if c == b'"'
    then b'\\' ∷ b'"' ∷ []
    else if c == b'\\'
    then b'\\' ∷ b'\\' ∷ []
    else if c == 10
    then b'\\' ∷ b'n' ∷ []
    else if c == 13
    then b'\\' ∷ b'r' ∷ []
    else if c == 9
    then b'\\' ∷ b't' ∷ []
    else if c == 8
    then b'\\' ∷ b'b' ∷ []
    else if c == 12
    then b'\\' ∷ b'f' ∷ []
    else if ltb c 0x20
    then b'\\' ∷ b'u' ∷ b'0' ∷ b'0' ∷ hex_digit (c / 16) ∷ hex_digit (c % 16) ∷ []
    else c ∷ []

unfoldable pub write_bytes : Bytes → Bytes
unfolding write_byte
write_bytes [] = []
write_bytes (c ∷ s) = write_byte c ++ write_bytes s

abbrev pub write_string : Bytes → Bytes
write_string s = b'"' ∷ (write_bytes s ++ b'"' ∷ [])

-- `if (i) out += ", ";`
abbrev pub separator : Bool → Bytes
separator first = if first then [] else b',' ∷ b' ' ∷ []

unfoldable mutual
  pub write_value : Value → Bytes
  write_value null = b'n' ∷ b'u' ∷ b'l' ∷ b'l' ∷ []
  write_value (bool true) = b't' ∷ b'r' ∷ b'u' ∷ b'e' ∷ []
  write_value (bool false) = b'f' ∷ b'a' ∷ b'l' ∷ b's' ∷ b'e' ∷ []
  write_value (num text) = text
  write_value (str s) = write_string s
  write_value (arr xs) = b'[' ∷ write_items true xs
  write_value (obj fs) = b'{' ∷ write_fields true fs

  -- The loop over the items and the closing bracket.
  pub write_items : Bool → Items → Bytes
  write_items first no_items = b']' ∷ []
  write_items first (item v xs) = separator first ++ (write_value v ++ write_items false xs)

  pub write_fields : Bool → Fields → Bytes
  write_fields first no_fields = b'}' ∷ []
  write_fields first (field k v fs) =
      separator first ++ (write_string k ++ b':' ∷ b' ' ∷ (write_value v ++ write_fields false fs))
