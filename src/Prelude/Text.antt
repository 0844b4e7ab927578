-- ===== src/Prelude/Text.antt =====
-- Texts as lists of bytes, and the comparisons the code makes on them.
use Prim.Native.Nat.{ℕ}
use Prim.Native.Char.{code}
use Prim.Native.String.{String}
use mathlib.Core.Path.{◌≡◌, refl}
use mathlib.Core.Logic.{◌↔◌}
use mathlib.Core.Bool.{Bool, true, false, ◌&&◌, ◌||◌}
use mathlib.Core.List.{List, [], ◌∷◌, ◌++◌}
use native.Mathlib.Omega.{arith}
use desiree_ia.Prelude.Tests.{◌==◌, leb}

abbrev pub Bytes : Type 0
Bytes = List ℕ

-- The code points of a text: its bytes, if it is ASCII.
abbrev pub codes : String → Bytes
codes String.[] = []
codes (String.◌∷◌ c s) = code c ∷ codes s

-- `==` of `std::string`, a byte at a time.
unfoldable pub equal : Bytes → Bytes → Bool
equal [] [] = true
equal [] (d ∷ text) = false
equal (c ∷ word) [] = false
equal (c ∷ word) (d ∷ text) = c == d && equal word text

pub equal_iff : (word text : Bytes) → (equal word text ≡ true) ↔ (word ≡ text)
unfolding equal
equal_iff [] text = ground arith
equal_iff (c ∷ word) [] = ground arith
equal_iff (c ∷ word) (d ∷ text) = ground (arith, equal_iff word text)

-- `text.compare(0, p.size(), p) == 0`: the text begins with `p`.
unfoldable pub is_prefix : Bytes → Bytes → Bool
is_prefix [] text = true
is_prefix (x ∷ p) [] = false
is_prefix (x ∷ p) (y ∷ text) = x == y && is_prefix p text

pub is_prefix-append : (p q : Bytes) → is_prefix p (p ++ q) ≡ true
unfolding is_prefix
is_prefix-append [] q = refl
is_prefix-append (x ∷ p) q = ground (arith, is_prefix-append p q)

abbrev pub is_digit : ℕ → Bool
is_digit c = leb b'0' c && leb c b'9'

abbrev pub is_hex : ℕ → Bool
is_hex c = is_digit c || (leb b'a' c && leb c b'f') || (leb b'A' c && leb c b'F')
