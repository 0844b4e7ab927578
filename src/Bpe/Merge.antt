-- ===== src/Bpe/Merge.antt =====
-- tokenizer/bpe_tokenizer.cpp, `BpeTokenizer::bpe_merge`. `merge_rank_` is a function from the
-- joined pair to its rank.
use desiree_ia.Prelude.{
  ℕ, zero, suc, Bool, true, Option, none, some, List, [], ◌∷◌, ◌++◌, length, take, drop, ltb,
  if◌then◌else◌, Bytes,
}
use desiree_ia.Bpe.ByteMap.{char_len}

abbrev pub Ranks : Type 0
Ranks = Bytes → Option ℕ

unfoldable pub symbols_from : ℕ → Bytes → List Bytes
symbols_from zero text = []
symbols_from (suc f) [] = []
symbols_from (suc f) (c ∷ rest) =
    take (char_len c rest) (c ∷ rest) ∷ symbols_from f (drop (char_len c rest) (c ∷ rest))

-- `symbols[i] + " " + symbols[i + 1]`
abbrev pub pair_key : Bytes → Bytes → Bytes
pair_key a b = a ++ (b' ' ∷ b)

abbrev pub is_better : ℕ → Option (ℕ × ℕ) → Bool
is_better rank none = true
is_better rank (some (best_rank, best_idx)) = ltb rank best_rank

-- The loop over the pairs, from the pair at index `i` on; `best` is `best_rank` and `best_idx`.
unfoldable pub best_pair : Ranks → ℕ → Option (ℕ × ℕ) → List Bytes → Option (ℕ × ℕ)
best_pair ranks i best [] = best
best_pair ranks i best (a ∷ []) = best
best_pair ranks i best (a ∷ b ∷ rest) =
    best_pair ranks (suc i)
      (elim (ranks (pair_key a b)) [
        | none ↦ best
        | some rank ↦ if is_better rank best then some (rank, i) else best
      ])
      (b ∷ rest)

-- `symbols[i] += symbols[i + 1]` and the erasure of the second.
unfoldable pub merge_at : ℕ → List Bytes → List Bytes
merge_at i [] = []
merge_at i (a ∷ []) = a ∷ []
merge_at zero (a ∷ b ∷ rest) = (a ++ b) ∷ rest
merge_at (suc i) (a ∷ b ∷ rest) = a ∷ merge_at i (b ∷ rest)

unfoldable pub merge_loop : ℕ → Ranks → List Bytes → List Bytes
unfolding best_pair merge_at
merge_loop zero ranks symbols = symbols
merge_loop (suc f) ranks symbols = elim (best_pair ranks 0 none symbols) [
  | none ↦ symbols
  | some (rank, i) ↦ merge_loop f ranks (merge_at i symbols)
]

unfoldable pub bpe_merge : Ranks → Bytes → List Bytes
unfolding symbols_from merge_loop
bpe_merge ranks chunk =
    merge_loop (length (symbols_from (length chunk) chunk)) ranks
      (symbols_from (length chunk) chunk)
