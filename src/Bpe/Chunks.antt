-- ===== src/Bpe/Chunks.antt =====
-- tokenizer/bpe_tokenizer.cpp, `pre_tokenize`.
use desiree_ia.Prelude.{
  ℕ, zero, suc, ◌+◌, Bool, not, ◌&&◌, ◌||◌, List, [], ◌∷◌, length, take, drop, ◌==◌, ltb, leb,
  if◌then◌else◌, Bytes, codes, is_prefix, is_digit,
}
use desiree_ia.Bpe.ByteMap.{utf8_len}

abbrev pub is_ascii_alpha : ℕ → Bool
is_ascii_alpha c = (leb b'a' c && leb c b'z') || (leb b'A' c && leb c b'Z')

abbrev pub is_space : ℕ → Bool
is_space c = c == b' ' || c == b'\t' || c == b'\n' || c == b'\r'

abbrev pub contractions : List Bytes
contractions =
    codes "'s" ∷ codes "'t" ∷ codes "'re" ∷ codes "'ve" ∷ codes "'m" ∷ codes "'ll" ∷ codes "'d" ∷ []

-- The length of the first contraction that the text begins with, or 0.
unfoldable pub contraction_len : List Bytes → Bytes → ℕ
contraction_len [] text = 0
contraction_len (c ∷ cs) text = if is_prefix c text then length c else contraction_len cs text

abbrev pub is_letter : ℕ → Bool
is_letter c = is_ascii_alpha c || leb 0x80 c

abbrev pub is_other : ℕ → Bool
is_other c = not (is_ascii_alpha c) && not (is_digit c) && not (is_space c) && ltb c 0x80

-- How far the loop over letters goes, a whole character at a time: it may pass the end.
unfoldable pub letters_len : ℕ → Bytes → ℕ
letters_len zero text = 0
letters_len (suc f) [] = 0
letters_len (suc f) (c ∷ rest) =
    let more = utf8_len c + letters_len f (drop (utf8_len c) (c ∷ rest)) in
    if is_letter c then more else 0

-- How far a loop over single bytes goes.
unfoldable pub span_len : (ℕ → Bool) → Bytes → ℕ
span_len p [] = 0
span_len p (c ∷ rest) = if p c then suc (span_len p rest) else 0

-- The length of the run that begins with the byte `c`.
unfoldable pub run_len : ℕ → Bytes → ℕ
unfolding letters_len span_len
run_len c rest =
    if is_letter c
    then letters_len (suc (length rest)) (c ∷ rest)
    else if is_digit c
    then span_len is_digit (c ∷ rest)
    else if is_space c
    then span_len is_space (c ∷ rest)
    else if span_len is_other (c ∷ rest) == 0
    then 1
    else span_len is_other (c ∷ rest)

-- The length of the chunk at the front of a text that is not empty.
unfoldable pub chunk_len : Bytes → ℕ
unfolding run_len
chunk_len [] = 0
chunk_len (c ∷ []) = run_len c []
chunk_len (c ∷ d ∷ rest) =
    if c == b' ' && not (is_space d) then suc (run_len d rest) else run_len c (d ∷ rest)

unfoldable pub next_len : Bytes → ℕ
unfolding contraction_len chunk_len
next_len text =
    if contraction_len contractions text == 0
    then chunk_len text
    else contraction_len contractions text

unfoldable pub chunks_from : ℕ → Bytes → List Bytes
unfolding next_len
chunks_from zero text = []
chunks_from (suc f) [] = []
chunks_from (suc f) (c ∷ rest) =
    take (next_len (c ∷ rest)) (c ∷ rest) ∷ chunks_from f (drop (next_len (c ∷ rest)) (c ∷ rest))

unfoldable pub pre_tokenize : Bytes → List Bytes
unfolding chunks_from
pre_tokenize text = chunks_from (length text) text
