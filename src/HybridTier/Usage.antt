-- ===== src/HybridTier/Usage.antt =====
-- ssd_tier/hybrid_tier.cpp, `load_usage` and `save_usage`, whose code expert/expert_store.cpp and
-- ssd_tier/tiered_expert_store.cpp have too. The map is a list, which is written in its order.
pub mod Saved
use desiree_ia.Prelude.{
  ℕ, ◌+◌, ◌-◌, ◌%◌, ◌^◌, Bool, true, false, Option, none, some, List, [], ◌∷◌, ◌++◌, is_empty,
  is_digit, ltb, ◌==◌, equal, if◌then◌else◌, Bytes,
}
use desiree_ia.Prelude.Decimal.{is_space, digits, scan}
use desiree_ia.HybridTier.Keys.{make_key, unpack_key}
use desiree_ia.Mirror.Files.{Files, Access, open_read}

-- `usage[key] = count`
unfoldable pub put : ℕ → ℕ → List (ℕ × ℕ) → List (ℕ × ℕ)
put key count [] = (key, count) ∷ []
put key count ((k, n) ∷ usage) =
    if k == key then (k, count) ∷ usage else (k, n) ∷ put key count usage

-- `std::getline`: the lines of a text of which `line` is begun.
unfoldable pub lines : Bytes → Bytes → List Bytes
lines line [] = if is_empty line then [] else line ∷ []
lines line (c ∷ text) = if c == b'\n' then line ∷ lines [] text else lines (line ++ c ∷ []) text

unfoldable pub skip : Bytes → Bytes
skip [] = []
skip (c ∷ text) = if is_space c then skip text else c ∷ text

-- A number that does not fit 32 bits fails, a negative one wraps.
unfoldable pub fitting : Bool → ℕ × Bytes → Option (ℕ × Bytes)
fitting negative (n, rest) =
    if ltb n (2 ^ 32) then some (if negative then (2 ^ 32 - n) % 2 ^ 32 else n, rest) else none

-- `>>` into a number of 32 bits.
unfoldable pub read_digits : Bool → Bytes → Option (ℕ × Bytes)
unfolding fitting
read_digits negative [] = none
read_digits negative (c ∷ text) = if is_digit c then fitting negative (scan 0 (c ∷ text)) else none

unfoldable pub read_signed : Bytes → Option (ℕ × Bytes)
unfolding read_digits
read_signed [] = none
read_signed (c ∷ text) =
    if c == b'-'
    then read_digits true text
    else if c == b'+'
    then read_digits false text
    else read_digits false (c ∷ text)

unfoldable pub read_number : Bytes → Option (ℕ × Bytes)
unfolding skip read_signed
read_number text = read_signed (skip text)

-- `>>` into a character.
unfoldable pub read_char : Bytes → Option Bytes
unfolding skip
read_char text = elim (skip text) [ [] ↦ none | c ∷ rest ↦ some rest ]

-- A separator, which may be any character, and a number.
unfoldable pub read_next : Bytes → Option (ℕ × Bytes)
unfolding read_char read_number
read_next text = elim (read_char text) [ none ↦ none | some rest ↦ read_number rest ]

unfoldable pub read_line : Bytes → Option (ℕ × ℕ × ℕ × ℕ)
read_line text = elim (read_number text) [
  | none ↦ none
  | some (layer, t1) ↦ elim (read_next t1) [
    | none ↦ none
    | some (idx, t2) ↦ elim (read_next t2) [
      | none ↦ none
      | some (part, t3) ↦ elim (read_next t3) [
        | none ↦ none
        | some (count, t4) ↦ some (layer, idx, part, count)
      ]
    ]
  ]
]

-- A line that cannot be read is left out.
unfoldable pub load_lines : List Bytes → List (ℕ × ℕ) → List (ℕ × ℕ)
load_lines [] usage = usage
load_lines (line ∷ rest) usage = elim (read_line line) [
  | none ↦ load_lines rest usage
  | some (layer, idx, part, count) ↦ load_lines rest (put (make_key layer idx part) count usage)
]

unfoldable pub line_of : ℕ × ℕ → Bytes
unfolding unpack_key
line_of (key, count) =
    let (layer, idx, part) = unpack_key key in
    digits 10 layer
    ++ (b':' ∷ (digits 10 idx ++ (b':' ∷ (digits 10 part ++ (b':' ∷ digits 10 count)))))

unfoldable pub text_of : List (ℕ × ℕ) → Bytes
text_of [] = []
text_of (entry ∷ usage) = line_of entry ++ (b'\n' ∷ text_of usage)

module _ (access : Access) where
  unfoldable pub load_usage : Files → Bytes → List (ℕ × ℕ) → List (ℕ × ℕ)
  unfolding open_read
  load_usage files path usage =
      if is_empty path then usage else elim (open_read access files path) [
        | none ↦ usage
        | some text ↦ load_lines (lines [] text) usage
      ]

  -- The file is emptied as it is opened.
  unfoldable pub save_usage : Files → Bytes → List (ℕ × ℕ) → Files
  save_usage files path usage =
      if is_empty path
      then files
      else if access.writable path
      then (λ other. if equal other path then some (text_of usage) else files other)
      else files
