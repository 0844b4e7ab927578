-- ===== src/Spm/Encoded.antt =====
-- tokenizer/spm_tokenizer.cpp, `encode`: it returns.
use desiree_ia.Prelude.{
  ℕ, zero, suc, ◌+◌, ◌-◌, ◌*◌, ◌≤◌, ◌<◌, Bool, true, false, ◌&&◌, Option, none, some, List, [], ◌∷◌,
  ◌++◌, length, drop, get_or, is_prefix, ltb, if◌then◌else◌, Bytes, ◌≡◌, refl, arith, Bool-cases,
  Option-cases, inl, inr, length-drop,
}
use desiree_ia.Bpe.Encode.{special_at}
use desiree_ia.Spm.{Order, Tokenizer, space_mark}
use desiree_ia.Spm.Merge.{Sym, no_sym, symbols, first_pairs}
use desiree_ia.Spm.Ends.{alive, merge_loop_returns}
use desiree_ia.Spm.Linked.{
  NextOk, Linked, symbols-Linked, first_pairs-InOrder, merge_loop-Linked, LinkedOut,
}
use desiree_ia.Spm.Encode.{emit_from, mark_spaces, encode_merge, segment, scan, encode}

get_or-beyond : (syms : List Sym) (i : ℕ) → length syms ≤ i → get_or syms i no_sym ≡ no_sym
get_or-beyond [] i h = refl
get_or-beyond (x ∷ syms) zero h = absurd (omega arith)
get_or-beyond (x ∷ syms) (suc i) h = get_or-beyond syms i (omega arith)

alive-le : (syms : List Sym) → alive syms ≤ length syms
alive-le [] = omega arith
alive-le (x ∷ syms) = ground (arith, alive-le syms)

-- Rounds that are enough from an index on.
abbrev Enough : Option ℕ → List Sym → ℕ → Type 0
Enough none syms f = 1 ≤ f
Enough (some i) syms f = length syms - i + 2 ≤ f

next-Enough :
    (syms : List Sym) (i f : ℕ)
    → Linked syms
    → length syms - i + 2 ≤ suc f
    → Enough (get_or syms i no_sym).next syms f
next-Enough syms i f h le = elim (Bool-cases (ltb i (length syms))) [
  | inl e ↦ behind (get_or syms i no_sym).next (h i).0 (ground arith)
  | inr e ↦ rw (get_or-beyond syms i (ground arith)) (omega (arith, le))
]
  where
    behind : (o : Option ℕ) → NextOk i o → i < length syms → Enough o syms f
    behind none n lt = omega (arith, le)
    behind (some j) n lt = omega (arith, le)

abbrev LongOption : Option (Bytes × ℕ) → Type 0
LongOption none = Unit
LongOption (some (s, id)) = 0 < length s

special_at-LongOption :
    (specials : List (Bytes × ℕ)) (text : Bytes) → LongOption (special_at specials text)
unfolding special_at
special_at-LongOption [] text = tt
special_at-LongOption (([], id) ∷ rest) text = special_at-LongOption rest text
special_at-LongOption ((c ∷ s, id) ∷ rest) text = elim (Bool-cases (is_prefix (c ∷ s) text)) [
  | inl e ↦ rw e (omega arith)
  | inr e ↦ rw e (special_at-LongOption rest text)
]

module _ {F : Type 0} (t : Tokenizer F) (norm : Bytes) where
  emit_from_returns :
      (f : ℕ) (i : Option ℕ) (syms : List Sym)
      → Linked syms
      → Enough i syms f
      → (ids : List ℕ) × (emit_from f t norm i syms ≡ some ids)
  unfolding emit_from
  emit_from_returns zero none syms h e = absurd (omega arith)
  emit_from_returns zero (some i) syms h e = absurd (omega arith)
  emit_from_returns (suc f) none syms h e = ([], refl)
  emit_from_returns (suc f) (some i) syms h e =
      let (ids, n) =
        emit_from_returns f (get_or syms i no_sym).next syms h (next-Enough syms i f h e) in
      rw (n, emit_from) (_, refl)

module _ {F : Type 0} (order : Order F) (t : Tokenizer F) where
  encode_merge_returns : (norm : Bytes) → (ids : List ℕ) × (encode_merge order t norm ≡ some ids)
  unfolding encode_merge
  encode_merge_returns [] = ([], refl)
  encode_merge_returns (c ∷ norm) =
      let syms : List Sym = symbols 0 0 0 (c ∷ norm) in
      let queue = first_pairs order t (c ∷ norm) (length syms - 1) 0 syms [] in
      let f : ℕ = suc (length queue + 2 * length syms) in
      let (out, n) =
        merge_loop_returns order t (c ∷ norm) f queue syms (omega (arith, alive-le syms)) in
      let linked : LinkedOut order t (c ∷ norm) (some out) = rw n at (
        merge_loop-Linked order t (c ∷ norm) f queue syms
          (first_pairs-InOrder order t (c ∷ norm) (length syms - 1) 0 syms [] tt)
          (symbols-Linked (c ∷ norm))) in
      let (ids, e) =
        emit_from_returns t (c ∷ norm) (suc (suc (length out))) (some 0) out linked (omega arith) in
      (ids, rw (n, encode_merge) e)

  segment_returns :
      (first : Bool) (plain : Bytes) → (ids : List ℕ) × (segment order t first plain ≡ some ids)
  unfolding segment
  segment_returns first [] = ([], refl)
  segment_returns first (c ∷ text) =
      encode_merge_returns
        ((if t.add_space_prefix && first then space_mark else []) ++ mark_spaces (c ∷ text))

  scan_returns :
      (f : ℕ) (first : Bool) (plain text : Bytes)
      → length text < f
      → (ids : List ℕ) × (scan order f t first plain text ≡ some ids)
  unfolding scan
  scan_returns zero first plain text h = absurd (omega arith)
  scan_returns (suc f) first plain [] h = segment_returns first plain
  scan_returns (suc f) first plain (c ∷ text) h =
      elim (Option-cases (special_at t.specials (c ∷ text))) [
        | inl n ↦ rw (n, scan) (scan_returns f first (plain ++ c ∷ []) text (omega arith))
        | inr ((s, id), n) ↦
            let some_bytes : LongOption (some (s, id)) =
              rw n at (special_at-LongOption t.specials (c ∷ text)) in
            let (xs, e) = segment_returns first plain in
            let (ys, e') =
              scan_returns f false [] (drop (length s) (c ∷ text))
                (omega (arith, length-drop (length s) (c ∷ text), some_bytes)) in
            rw (n, scan) (rw (e, e') (_, refl))
      ]

  -- `encode` returns for any text: the queue of merges runs empty, and the links between the symbols
  -- come to an end.
  pub encode_returns :
      (text : Bytes) (add_bos : Bool) → (ids : List ℕ) × (encode order t text add_bos ≡ some ids)
  unfolding encode
  encode_returns text add_bos =
      let (ids, e) = scan_returns (suc (length text)) true [] text (omega arith) in rw e (_, refl)
