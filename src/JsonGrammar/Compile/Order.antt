-- ===== src/JsonGrammar/Compile/Order.antt =====
-- core/json_grammar.cpp: `std::sort` and `std::unique` on texts. Where the order of equal keys is left
-- open, they stay in the order they had.
use desiree_ia.Prelude.{
  Bool, true, false, ◌&&◌, ◌||◌, List, [], ◌∷◌, ltb, ◌==◌, equal, if◌then◌else◌, Bytes,
}

-- `<` of `std::string`
unfoldable pub less : Bytes → Bytes → Bool
less s [] = false
less [] (d ∷ t) = true
less (c ∷ s) (d ∷ t) = ltb c d || (c == d && less s t)

module _ {A : Type 0} (key : A → Bytes) where
  unfoldable pub insert : A → List A → List A
  unfolding less
  insert x [] = x ∷ []
  insert x (y ∷ ys) = if less (key y) (key x) then y ∷ insert x ys else x ∷ y ∷ ys

  unfoldable pub sort_by : List A → List A
  unfolding insert
  sort_by [] = []
  sort_by (x ∷ xs) = insert x (sort_by xs)

abbrev pub sort : List Bytes → List Bytes
sort = sort_by (λ s. s)

-- What stays behind `s`.
unfoldable pub unique_after : Bytes → List Bytes → List Bytes
unique_after s [] = []
unique_after s (t ∷ ts) = if equal s t then unique_after s ts else t ∷ unique_after t ts

unfoldable pub unique : List Bytes → List Bytes
unfolding unique_after
unique [] = []
unique (s ∷ ts) = s ∷ unique_after s ts
