-- ===== src/Bpe/Cover.antt =====
-- tokenizer/bpe_tokenizer.cpp, `pre_tokenize`: the chunks and the text.
use mathlib.Core.List.{flatten}
use desiree_ia.Prelude.{
  ℕ, zero, suc, ◌≤◌, [], ◌∷◌, ◌++◌, length, take, drop, ◌≡◌, ◌≢◌, refl, ap, ◌∙◌, arith,
  take-append-drop, length-drop, All, Bytes,
}
use desiree_ia.Bpe.ByteMap.{utf8_len}
use desiree_ia.Bpe.Chunks.{
  letters_len, span_len, run_len, chunk_len, next_len, chunks_from, pre_tokenize,
}

utf8_len-pos : (c : ℕ) → 1 ≤ utf8_len c
unfolding utf8_len
utf8_len-pos c = ground arith

run_len-pos : (c : ℕ) (rest : Bytes) → 1 ≤ run_len c rest
unfolding run_len letters_len span_len
run_len-pos c rest = ground (arith, utf8_len-pos c)

chunk_len-pos : (c : ℕ) (rest : Bytes) → 1 ≤ chunk_len (c ∷ rest)
unfolding chunk_len
chunk_len-pos c [] = run_len-pos c []
chunk_len-pos c (d ∷ rest) = ground (arith, run_len-pos d rest, run_len-pos c (d ∷ rest))

next_len-pos : (c : ℕ) (rest : Bytes) → 1 ≤ next_len (c ∷ rest)
unfolding next_len
next_len-pos c rest = ground (arith, chunk_len-pos c rest)

take-ne-nil : (n c : ℕ) (rest : Bytes) → 1 ≤ n → take n (c ∷ rest) ≢ []
take-ne-nil zero c rest h = absurd (omega arith)
take-ne-nil (suc n) c rest h = λ e. cc

chunks_from-text :
    (f : ℕ) (text : Bytes)
    → length text ≤ f
    → (flatten (chunks_from f text) ≡ text) × All (λ chunk. chunk ≢ []) (chunks_from f text)
unfolding chunks_from flatten
chunks_from-text zero [] h = (refl, tt)
chunks_from-text zero (c ∷ rest) h = absurd (omega arith)
chunks_from-text (suc f) [] h = (refl, tt)
chunks_from-text (suc f) (c ∷ rest) h =
    let n = next_len (c ∷ rest) in
    let shorter : length (drop n (c ∷ rest)) ≤ f =
      omega (arith, length-drop n (c ∷ rest), next_len-pos c rest) in
    let later = chunks_from-text f (drop n (c ∷ rest)) shorter in
    (
      ap (λ r. take n (c ∷ rest) ++ r) later.0 ∙ take-append-drop n (c ∷ rest),
      (take-ne-nil n c rest (next_len-pos c rest), later.1),
    )

-- The chunks put end to end are the text, and no chunk is empty.
pub pre_tokenize-text :
    (text : Bytes)
    → (flatten (pre_tokenize text) ≡ text) × All (λ chunk. chunk ≢ []) (pre_tokenize text)
unfolding pre_tokenize
pre_tokenize-text text = chunks_from-text (length text) text (omega arith)
