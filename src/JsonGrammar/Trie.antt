-- ===== src/JsonGrammar/Trie.antt =====
-- core/json_grammar.cpp: `PieceTrie`, and `walk` and `mask` of the constraint. The indices of the
-- C++ nodes make a tree, which stands here in their place: `first_child` and `next_sibling` are
-- subtrees, `leaf` is -1, and the chain of tokens of a node is a list. The children of this
-- module have what the trie stores, and what a walk marks.
pub mod Stored
pub mod Walked
pub mod Masked
use desiree_ia.Prelude.{
  ℕ, zero, suc, Bool, true, false, not, ◌&&◌, ◌||◌, Option, none, some, List, [], ◌∷◌, get_or, set,
  is_empty, ◌==◌, if◌then◌else◌, Bytes,
}
use desiree_ia.JsonGrammar.{Grammar, Config}
use desiree_ia.JsonGrammar.Constraint.{State, configured, advance}

-- A node with its siblings: the byte, the tokens that end here, `first_child`, `next_sibling`.
pub data Trie : Type 0 where
  leaf : Trie
  node : ℕ → List ℕ → Trie → Trie → Trie

-- The loop over the siblings finds the byte.
pub has_byte : ℕ → Trie → Bool
has_byte b leaf = false
has_byte b (node x ts c s) = x == b || has_byte b s

-- What happens at a node happens at the first sibling with the byte.
pub at_byte : ℕ → (List ℕ × Trie → List ℕ × Trie) → Trie → Trie
at_byte b f leaf = leaf
at_byte b f (node x ts c s) =
    if x == b then node x (f (ts, c)).0 (f (ts, c)).1 s else node x ts c (at_byte b f s)

-- The rest of a piece from a node on, given by its tokens and its first child; a node that is not
-- there is made as the first child.
pub insert : Bytes → ℕ → List ℕ × Trie → List ℕ × Trie
insert [] id (ts, c) = (id ∷ ts, c)
insert (b ∷ rest) id (ts, c) = (
  ts,
  if has_byte b c
      then at_byte b (insert rest id) c
      else node b (insert rest id ([], leaf)).0 (insert rest id ([], leaf)).1 c,
)

-- `include[i]`, where the list goes that far.
pub is_included : List Bool → ℕ → Bool
is_included include i = get_or include i true

-- The loop of `build` from the token `id` on. The root takes no token.
pub build_from : ℕ → List Bytes → List Bool → Trie → Trie
build_from id [] include t = t
build_from id (p ∷ pieces) include t =
    build_from (suc id) pieces include
      (if is_empty p || not (is_included include id) then t else (insert p id ([], t)).1)

pub build : List Bytes → List Bool → Trie
build pieces include = build_from 0 pieces include leaf

-- `PieceTrie::empty`
abbrev pub is_leaf : Trie → Bool
is_leaf leaf = true
is_leaf (node b ts c s) = false

-- `keep[t] = 1` for each of the tokens.
pub mark : List ℕ → List Bool → List Bool
mark [] keep = keep
mark (t ∷ ts) keep = mark ts (set keep t true)

module _ (depth : ℕ) (g : Grammar) where
  -- The loop of `walk` over the children of a node; `none` where a call does not return.
  pub walk : Trie → List Config → List Bool → Option (List Bool)
  walk leaf cur keep = some keep
  walk (node b ts c s) cur keep =
      let below : Option (List Bool) = elim (advance depth g cur b) [
        | none ↦ none
        | some next ↦ elim next [ [] ↦ some keep | x ∷ xs ↦ walk c (x ∷ xs) (mark ts keep) ]
      ] in
      elim below [ none ↦ none | some keep' ↦ walk s cur keep' ]

  pub mask : State → Trie → List Bool → Option (List Bool)
  mask s t keep =
      if not (configured g) || s.gave_up || is_leaf t then some keep else walk t s.cfgs keep
