-- ===== src/JsonGrammar/Trie/Stored.antt =====
-- core/json_grammar.cpp, `PieceTrie::build`: where the trie holds a token.
use desiree_ia.Prelude.{
  ℕ, zero, suc, ◌+◌, ◌<◌, Bool, true, false, ◌&&◌, ◌||◌, some, List, [], ◌∷◌, ◌≡◌, refl, sym, ◌∙◌,
  get_elem?, is_empty, ◌==◌, equal, equal_iff, if◌then◌else◌, Bytes, arith, Bool-cases, inl, inr,
}
use desiree_ia.JsonGrammar.Trie.{
  Trie, leaf, node, has_byte, at_byte, insert, is_included, build_from, build,
}

abbrev pub elem : ℕ → List ℕ → Bool
elem j [] = false
elem j (t ∷ ts) = t == j || elem j ts

-- The token stands at the end of the path, which is not empty, below a node with these children.
unfoldable pub stored : Trie → Bytes → ℕ → Bool
stored leaf w j = false
stored (node x ts c s) [] j = false
stored (node x ts c s) (b ∷ rest) j =
    (x == b && (if is_empty rest then elem j ts else stored c rest j)) || stored s (b ∷ rest) j

-- The same from a node on, where the path may be empty.
abbrev pub stored_at : List ℕ × Trie → Bytes → ℕ → Bool
stored_at (ts, c) w j = if is_empty w then elem j ts else stored c w j

stored-leaf_at : (w : Bytes) (j : ℕ) → stored_at ([], leaf) w j ≡ false
unfolding stored
stored-leaf_at [] j = refl
stored-leaf_at (b ∷ w) j = refl

module _ (b : ℕ) (piece : Bytes) (id : ℕ) (f : List ℕ × Trie → List ℕ × Trie)
    (adds : (n : List ℕ × Trie) (w : Bytes) (j : ℕ)
      → stored_at (f n) w j ≡ (stored_at n w j || (equal piece w && id == j))) where
  stored-at_byte :
      (t : Trie) (x : ℕ) (w : Bytes) (j : ℕ)
      → has_byte b t ≡ true
      → stored (at_byte b f t) (x ∷ w) j
        ≡ (stored t (x ∷ w) j || (equal (b ∷ piece) (x ∷ w) && id == j))
  unfolding stored at_byte has_byte equal
  stored-at_byte leaf x w j h = cc
  stored-at_byte (node y ts c s) x w j h = ground (arith, adds (ts, c) w j, stored-at_byte s x w j)

  stored_new :
      (c : Trie) (x : ℕ) (w : Bytes) (j : ℕ)
      → stored (node b (f ([], leaf)).0 (f ([], leaf)).1 c) (x ∷ w) j
        ≡ (stored c (x ∷ w) j || (equal (b ∷ piece) (x ∷ w) && id == j))
  unfolding stored equal
  stored_new c x w j = ground (arith, adds ([], leaf) w j, stored-leaf_at w j)

stored-insert :
    (piece : Bytes) (id : ℕ) (n : List ℕ × Trie) (w : Bytes) (j : ℕ)
    → stored_at (insert piece id n) w j ≡ (stored_at n w j || (equal piece w && id == j))
unfolding insert
stored-insert [] id (ts, c) [] j = unfold equal in ground arith
stored-insert [] id (ts, c) (x ∷ w) j = unfold equal in ground arith
stored-insert (b ∷ rest) id (ts, c) [] j = unfold equal in ground arith
stored-insert (b ∷ rest) id (ts, c) (x ∷ w) j = elim (Bool-cases (has_byte b c)) [
  | inl found ↦
      rw found (stored-at_byte b rest id (insert rest id) (stored-insert rest id) c x w j found)
  | inr new ↦ rw new (stored_new b rest id (insert rest id) (stored-insert rest id) c x w j)
]

-- The pieces are stored at themselves, and nothing else is stored.
abbrev put : ℕ → List Bytes → List Bool → Bytes → ℕ → Bool
put id [] include w j = false
put id (p ∷ pieces) include w j =
    (is_included include id && (equal p w && id == j)) || put (suc id) pieces include w j

nil_other : (x : ℕ) (w : Bytes) → equal [] (x ∷ w) ≡ false
unfolding equal
nil_other x w = refl

stored-build_from :
    (id : ℕ) (pieces : List Bytes) (include : List Bool) (t : Trie) (x : ℕ) (w : Bytes) (j : ℕ)
    → stored (build_from id pieces include t) (x ∷ w) j
      ≡ (stored t (x ∷ w) j || put id pieces include (x ∷ w) j)
unfolding build_from
stored-build_from id [] include t x w j = ground arith
stored-build_from id ([] ∷ pieces) include t x w j =
    ground (arith, stored-build_from (suc id) pieces include t x w j, nil_other x w)
stored-build_from id ((b ∷ p) ∷ pieces) include t x w j =
    elim (Bool-cases (is_included include id)) [
      | inl yes' ↦ rw yes' (
          ground (
            arith,
            stored-build_from (suc id) pieces include (insert (b ∷ p) id ([], t)).1 x w j,
            stored-insert (b ∷ p) id ([], t) (x ∷ w) j,
          ))
      | inr no' ↦ rw no' (ground (arith, stored-build_from (suc id) pieces include t x w j))
    ]

put_later :
    (pieces : List Bytes) (include : List Bool) (id j : ℕ) (w : Bytes)
    → j < id
    → put id pieces include w j ≡ false
put_later [] include id j w h = refl
put_later (q ∷ pieces) include id j w h = ground (arith, put_later pieces include (suc id) j w)

put-get_elem? :
    (pieces : List Bytes) (include : List Bool) (id k j : ℕ) (p : Bytes)
    → j ≡ id + k
    → get_elem? pieces k ≡ some p
    → is_included include j ≡ true
    → put id pieces include p j ≡ true
put-get_elem? [] include id k j p e g h = cc
put-get_elem? (q ∷ pieces) include id zero j p e g h = ground (arith, (equal_iff q p).1)
put-get_elem? (q ∷ pieces) include id (suc k) j p e g h =
    ground (arith, put-get_elem? pieces include (suc id) k j p)

get_elem?-put :
    (pieces : List Bytes) (include : List Bool) (id k j : ℕ) (w : Bytes)
    → j ≡ id + k
    → put id pieces include w j ≡ true
    → (get_elem? pieces k ≡ some w) × (is_included include j ≡ true)
get_elem?-put [] include id k j w e h = cc
get_elem?-put (q ∷ pieces) include id zero j w e h =
    ground (arith, (equal_iff q w).0, put_later pieces include (suc id) j w)
get_elem?-put (q ∷ pieces) include id (suc k) j w e h =
    ground (arith, get_elem?-put pieces include (suc id) k j w)

module _ (pieces : List Bytes) (include : List Bool) (x : ℕ) (w : Bytes) (j : ℕ) where
  stored-build : stored (build pieces include) (x ∷ w) j ≡ put 0 pieces include (x ∷ w) j
  unfolding build stored
  stored-build = stored-build_from 0 pieces include leaf x w j

  -- The trie holds a token that is included at its piece, where that is not empty.
  pub build-stored :
      get_elem? pieces j ≡ some (x ∷ w)
      → is_included include j ≡ true
      → stored (build pieces include) (x ∷ w) j ≡ true
  build-stored g h = stored-build ∙ put-get_elem? pieces include 0 j j (x ∷ w) (omega arith) g h

  -- It holds it nowhere else.
  pub stored-build_only :
      stored (build pieces include) (x ∷ w) j ≡ true
      → (get_elem? pieces j ≡ some (x ∷ w)) × (is_included include j ≡ true)
  stored-build_only h =
      get_elem?-put pieces include 0 j j (x ∷ w) (omega arith) (sym stored-build ∙ h)
