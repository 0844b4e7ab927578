-- ===== src/Spm/Encode.antt =====
-- tokenizer/spm_tokenizer.cpp, `encode_merge`, `emit_piece` and `encode`.
use desiree_ia.Prelude.{
  ℕ, zero, suc, ◌+◌, ◌-◌, ◌*◌, Bool, true, false, ◌&&◌, Option, none, some, List, [], ◌∷◌, ◌++◌,
  length, drop, get_or, ltb, ◌==◌, if◌then◌else◌, Bytes,
}
use desiree_ia.Bpe.Encode.{last_index, special_at}
use desiree_ia.Spm.{Order, Tokenizer, space_mark}
use desiree_ia.Spm.Merge.{Sym, no_sym, symbols, substr, first_pairs, merge_loop}

unfoldable pub byte_id : ℕ → List (ℕ × ℕ) → Option ℕ
byte_id c [] = none
byte_id c ((b, id) ∷ rest) = if b == c then some id else byte_id c rest

-- The bytes of a piece that is not in the vocabulary, up to the first one without a token.
unfoldable pub emit_bytes : {F : Type 0} → Tokenizer F → Bytes → List ℕ
unfolding byte_id
emit_bytes t [] = []
emit_bytes t (c ∷ text) = elim (byte_id c t.byte_ids) [
  | some id ↦ id ∷ emit_bytes t text
  | none ↦ elim t.unk_id [ some unk ↦ unk ∷ [] | none ↦ emit_bytes t text ]
]

unfoldable pub emit_piece : {F : Type 0} → Tokenizer F → Bytes → List ℕ
unfolding last_index emit_bytes
emit_piece t p = elim (last_index 0 t.tokens p) [ some id ↦ id ∷ [] | none ↦ emit_bytes t p ]

-- The loop over the symbols that are left, from the index `i` on; `none` where its bound is met.
unfoldable pub emit_from :
    {F : Type 0} → ℕ → Tokenizer F → Bytes → Option ℕ → List Sym → Option (List ℕ)
unfolding emit_piece
emit_from zero t norm i syms = none
emit_from (suc f) t norm none syms = some []
emit_from (suc f) t norm (some i) syms =
    let x = get_or syms i no_sym in
    elim (emit_from f t norm x.next syms) [
      | none ↦ none
      | some ids ↦
          some (if ltb 0 x.len then emit_piece t (substr norm x.start x.len) ++ ids else ids)
    ]

-- The space marker for each space.
unfoldable pub mark_spaces : Bytes → Bytes
mark_spaces [] = []
mark_spaces (c ∷ text) = if c == b' ' then space_mark ++ mark_spaces text else c ∷ mark_spaces text

module _ {F : Type 0} (order : Order F) where
  unfoldable pub encode_merge : Tokenizer F → Bytes → Option (List ℕ)
  encode_merge t [] = some []
  encode_merge t (c ∷ norm) =
      let syms = symbols 0 0 0 (c ∷ norm) in
      let queue = first_pairs order t (c ∷ norm) (length syms - 1) 0 syms [] in
      elim (merge_loop order t (c ∷ norm) (suc (length queue + 2 * length syms)) queue syms) [
        | none ↦ none
        | some out ↦ emit_from (suc (suc (length out))) t (c ∷ norm) (some 0) out
      ]

  -- `segment`: the plain text between special tokens; `first` is at the start of the text.
  unfoldable pub segment : Tokenizer F → Bool → Bytes → Option (List ℕ)
  unfolding mark_spaces encode_merge
  segment t first [] = some []
  segment t first (c ∷ text) =
      encode_merge t
        ((if t.add_space_prefix && first then space_mark else []) ++ mark_spaces (c ∷ text))

  abbrev pub join : Option (List ℕ) → Option (List ℕ) → Option (List ℕ)
  join (some xs) (some ys) = some (xs ++ ys)
  join _ _ = none

  -- The scan: `plain` is the text from `start` to `i`, and the list is what follows.
  unfoldable pub scan : ℕ → Tokenizer F → Bool → Bytes → Bytes → Option (List ℕ)
  unfolding special_at segment
  scan zero t first plain text = none
  scan (suc f) t first plain [] = segment t first plain
  scan (suc f) t first plain (c ∷ text) = elim (special_at t.specials (c ∷ text)) [
    | none ↦ scan f t first (plain ++ c ∷ []) text
    | some (s, id) ↦
        join (segment t first plain)
          (join (some (id ∷ [])) (scan f t false [] (drop (length s) (c ∷ text))))
  ]

  unfoldable pub encode : Tokenizer F → Bytes → Bool → Option (List ℕ)
  unfolding scan
  encode t text add_bos =
      let bos : List ℕ = if add_bos then elim t.bos_id [ some id ↦ id ∷ [] | none ↦ [] ] else [] in
      join (some bos) (scan (suc (length text)) t true [] text)
