-- ===== src/Bpe/ByteMap.antt =====
-- tokenizer/bpe_tokenizer.cpp: the map between bytes and the visible characters of the vocabulary.
use Prim.Native.Nat.{bit_or}
use desiree_ia.Prelude.{
  ℕ, zero, suc, ◌+◌, ◌/◌, ◌%◌, ◌^◌, Bool, ◌&&◌, ◌||◌, Option, none, some, [], ◌∷◌, ◌++◌, length,
  take, drop, ltb, leb, if◌then◌else◌, Bytes, equal,
}

unfoldable pub utf8_encode_cp : ℕ → Bytes
utf8_encode_cp cp =
    if ltb cp 0x80
    then cp ∷ []
    else if ltb cp 0x800
    then bit_or 0xC0 (cp / 2 ^ 6) ∷ bit_or 0x80 (cp % 2 ^ 6) ∷ []
    else if ltb cp 0x10000
    then bit_or 0xE0 (cp / 2 ^ 12)
      ∷ bit_or 0x80 (cp / 2 ^ 6 % 2 ^ 6)
      ∷ bit_or 0x80 (cp % 2 ^ 6)
      ∷ []
    else bit_or 0xF0 (cp / 2 ^ 18) % 2 ^ 8
      ∷ bit_or 0x80 (cp / 2 ^ 12 % 2 ^ 6)
      ∷ bit_or 0x80 (cp / 2 ^ 6 % 2 ^ 6)
      ∷ bit_or 0x80 (cp % 2 ^ 6)
      ∷ []

-- The three ranges that `put` goes over.
abbrev pub is_visible : ℕ → Bool
is_visible b =
    (leb b'!' b && leb b b'~') || (leb 0xA1 b && leb b 0xAC) || (leb 0xAE b && leb b 0xFF)

-- `n` when the last loop has come to the byte `b`.
unfoldable pub hidden_below : ℕ → ℕ
hidden_below zero = 0
hidden_below (suc b) = if is_visible b then hidden_below b else suc (hidden_below b)

-- `byte_to_unicode()[b]`
unfoldable pub byte_to_unicode : ℕ → Bytes
unfolding utf8_encode_cp hidden_below
byte_to_unicode b = utf8_encode_cp (if is_visible b then b else 256 + hidden_below b)

unfoldable pub map_bytes : Bytes → Bytes
map_bytes [] = []
map_bytes (b ∷ raw) = byte_to_unicode b ++ map_bytes raw

unfoldable pub utf8_len : ℕ → ℕ
utf8_len c =
    if ltb c 0x80
    then 1
    else if leb 0xC0 c && ltb c 0xE0
    then 2
    else if leb 0xE0 c && ltb c 0xF0
    then 3
    else if leb 0xF0 c && ltb c 0xF8
    then 4
    else 1

-- `unicode_to_byte().find(ch)`: the last of the `n` first bytes that is written as `ch`.
unfoldable pub unicode_to_byte : ℕ → Bytes → Option ℕ
unicode_to_byte zero ch = none
unicode_to_byte (suc n) ch = if equal (byte_to_unicode n) ch then some n else unicode_to_byte n ch

-- The length of the character at the front: 1 where it would go over the end.
unfoldable pub char_len : ℕ → Bytes → ℕ
unfolding utf8_len
char_len c rest = if ltb (suc (length rest)) (utf8_len c) then 1 else utf8_len c

unfoldable pub unmap_char : Bytes → Bytes
unmap_char ch = elim (unicode_to_byte 256 ch) [ none ↦ ch | some b ↦ b ∷ [] ]

unfoldable pub unmap_from : ℕ → Bytes → Bytes
unfolding char_len unmap_char
unmap_from zero mapped = []
unmap_from (suc f) [] = []
unmap_from (suc f) (c ∷ rest) =
    unmap_char (take (char_len c rest) (c ∷ rest))
    ++ unmap_from f (drop (char_len c rest) (c ∷ rest))

unfoldable pub unmap_bytes : Bytes → Bytes
unfolding unmap_from
unmap_bytes mapped = unmap_from (length mapped) mapped
