-- ===== src/Bpe/Merged.antt =====
-- tokenizer/bpe_tokenizer.cpp, `bpe_merge`: what is left when the loop stops.
use mathlib.Core.List.{flatten}
use desiree_ia.Prelude.{
  ℕ, zero, suc, ◌+◌, ◌≤◌, ◌<◌, Option, none, some, List, [], ◌∷◌, ◌++◌, length, take, drop, ◌≡◌,
  refl, ap, ◌∙◌, arith, take-append-drop, length-drop, Bytes, Option-cases, inl, inr, ◌⊎◌,
  Bool-cases, append_assoc, sym,
}
use desiree_ia.Bpe.ByteMap.{char_len, utf8_len}
use desiree_ia.Bpe.Merge.{
  Ranks, symbols_from, pair_key, is_better, best_pair, merge_at, merge_loop, bpe_merge,
}

char_len-pos : (c : ℕ) (rest : Bytes) → 1 ≤ char_len c rest
unfolding char_len utf8_len
char_len-pos c rest = ground arith

symbols_from-text : (f : ℕ) (text : Bytes) → length text ≤ f → flatten (symbols_from f text) ≡ text
unfolding symbols_from flatten
symbols_from-text zero [] h = refl
symbols_from-text zero (c ∷ rest) h = absurd (omega arith)
symbols_from-text (suc f) [] h = refl
symbols_from-text (suc f) (c ∷ rest) h =
    let n = char_len c rest in
    let shorter : length (drop n (c ∷ rest)) ≤ f =
      omega (arith, length-drop n (c ∷ rest), char_len-pos c rest) in
    ap (λ r. take n (c ∷ rest) ++ r) (symbols_from-text f (drop n (c ∷ rest)) shorter)
    ∙ take-append-drop n (c ∷ rest)

merge_at-text : (i : ℕ) (s : List Bytes) → flatten (merge_at i s) ≡ flatten s
unfolding merge_at flatten
merge_at-text i [] = refl
merge_at-text i (a ∷ []) = refl
merge_at-text zero (a ∷ b ∷ rest) = append_assoc a b (flatten rest)
merge_at-text (suc i) (a ∷ b ∷ rest) = ap (λ r. a ++ r) (merge_at-text i (b ∷ rest))

-- No two neighbours have a rank.
abbrev pub Settled : Ranks → List Bytes → Type 0
Settled ranks [] = Unit
Settled ranks (a ∷ []) = Unit
Settled ranks (a ∷ b ∷ rest) = (ranks (pair_key a b) ≡ none) × Settled ranks (b ∷ rest)

-- What the loop over the pairs has found.
abbrev Found : Ranks → ℕ → Option (ℕ × ℕ) → List Bytes → Option (ℕ × ℕ) → Type 0
Found ranks i best s none = (best ≡ none) × Settled ranks s
Found ranks i best s (some (rank, j)) = (best ≡ some (rank, j)) ⊎ ((i ≤ j) × (suc j < i + length s))

some-ne-none : {p : ℕ × ℕ} → some p ≡ none → ⊥
some-ne-none e = cc

module _ (ranks : Ranks) (a b : Bytes) (rest : List Bytes) (i : ℕ) where
  skip-Found :
      (best o : Option (ℕ × ℕ))
      → ranks (pair_key a b) ≡ none
      → Found ranks (suc i) best (b ∷ rest) o
      → Found ranks i best (a ∷ b ∷ rest) o
  skip-Found best none n h = (h.0, (n, h.1))
  skip-Found best (some (r, j)) n (inl e) = inl e
  skip-Found best (some (r, j)) n (inr h) = inr (omega arith, omega arith)

  take-Found :
      (best o : Option (ℕ × ℕ)) (rank : ℕ)
      → Found ranks (suc i) (some (rank, i)) (b ∷ rest) o
      → Found ranks i best (a ∷ b ∷ rest) o
  take-Found best none rank h = absurd (some-ne-none h.0)
  take-Found best (some (r, j)) rank (inl e) =
      let here : i ≡ j = cc in inr (omega arith, omega arith)
  take-Found best (some (r, j)) rank (inr h) = inr (omega arith, omega arith)

  keep-Found :
      (p : ℕ × ℕ) (o : Option (ℕ × ℕ))
      → Found ranks (suc i) (some p) (b ∷ rest) o
      → Found ranks i (some p) (a ∷ b ∷ rest) o
  keep-Found p none h = absurd (some-ne-none h.0)
  keep-Found p (some (r, j)) (inl e) = inl e
  keep-Found p (some (r, j)) (inr h) = inr (omega arith, omega arith)

best_pair-Found :
    (ranks : Ranks) (s : List Bytes) (i : ℕ) (best : Option (ℕ × ℕ))
    → Found ranks i best s (best_pair ranks i best s)
unfolding best_pair
best_pair-Found ranks [] i none = (refl, tt)
best_pair-Found ranks [] i (some (r, j)) = inl refl
best_pair-Found ranks (a ∷ []) i none = (refl, tt)
best_pair-Found ranks (a ∷ []) i (some (r, j)) = inl refl
best_pair-Found ranks (a ∷ b ∷ rest) i none = elim (Option-cases (ranks (pair_key a b))) [
  | inl n ↦
      rw n (skip-Found ranks a b rest i none _ n (best_pair-Found ranks (b ∷ rest) (suc i) none))
  | inr (rank, r) ↦ rw r (
      take-Found ranks a b rest i none _ rank
        (best_pair-Found ranks (b ∷ rest) (suc i) (some (rank, i))))
]
best_pair-Found ranks (a ∷ b ∷ rest) i (some p) = elim (Option-cases (ranks (pair_key a b))) [
  | inl n ↦
      rw n (
        skip-Found ranks a b rest i (some p) _ n
          (best_pair-Found ranks (b ∷ rest) (suc i) (some p)))
  | inr (rank, r) ↦ elim (Bool-cases (is_better rank (some p))) [
    | inl y ↦
        rw (r, y)
          (take-Found ranks a b rest i (some p) _ rank
            (best_pair-Found ranks (b ∷ rest) (suc i) (some (rank, i))))
    | inr w ↦
        rw (r, w)
          (keep-Found ranks a b rest i p _ (best_pair-Found ranks (b ∷ rest) (suc i) (some p)))
  ]
]

length-merge_at :
    (i : ℕ) (s : List Bytes) → suc i < length s → length s ≡ suc (length (merge_at i s))
unfolding merge_at
length-merge_at i [] h = absurd (omega arith)
length-merge_at i (a ∷ []) h = absurd (omega arith)
length-merge_at zero (a ∷ b ∷ rest) h = refl
length-merge_at (suc i) (a ∷ b ∷ rest) h = ap suc (length-merge_at i (b ∷ rest) (omega arith))

merge_loop-Settled :
    (f : ℕ) (ranks : Ranks) (s : List Bytes)
    → length s ≤ f
    → (flatten (merge_loop f ranks s) ≡ flatten s) × Settled ranks (merge_loop f ranks s)
unfolding merge_loop
merge_loop-Settled zero ranks [] h = (refl, tt)
merge_loop-Settled zero ranks (a ∷ s) h = absurd (omega arith)
merge_loop-Settled (suc f) ranks s h = elim (Option-cases (best_pair ranks 0 none s)) [
  | inl n ↦ rw (n, merge_loop) (refl, (rw n at (best_pair-Found ranks s 0 none)).1)
  | inr ((rank, i), n) ↦
      let shorter = fits i (rw n at (best_pair-Found ranks s 0 none)) in
      let later =
        merge_loop-Settled f ranks (merge_at i s) (omega (arith, length-merge_at i s shorter)) in
      rw (n, merge_loop) (later.0 ∙ merge_at-text i s, later.1)
]
  where
    fits : {rank : ℕ} (i : ℕ) → Found ranks 0 none s (some (rank, i)) → suc i < length s
    fits i (inl e) = absurd (some-ne-none (sym e))
    fits i (inr h) = omega arith

-- The merges only join neighbours, so the symbols put end to end are the chunk; and they go on
-- until no two neighbours have a merge rule.
pub bpe_merge-Settled :
    (ranks : Ranks) (chunk : Bytes)
    → (flatten (bpe_merge ranks chunk) ≡ chunk) × Settled ranks (bpe_merge ranks chunk)
unfolding bpe_merge
bpe_merge-Settled ranks chunk =
    let s = symbols_from (length chunk) chunk in
    let done = merge_loop-Settled (length s) ranks s (omega arith) in
    (done.0 ∙ symbols_from-text (length chunk) chunk (omega arith), done.1)
