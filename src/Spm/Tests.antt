-- ===== src/Spm/Tests.antt =====
-- tokenizer/spm_tokenizer.cpp with a small vocabulary, whose scores are numbers.
use desiree_ia.Prelude.{
  ℕ, true, false, none, some, List, [], ◌∷◌, ◌≡◌, refl, codes, ltb, ◌==◌, equal, is_prefix,
}
use desiree_ia.Bpe.Encode.{last_index}
use desiree_ia.Bpe.ByteMap.{utf8_len}
use desiree_ia.Spm.{Order, Vocab, Tokenizer, load, piece, byte_value, space_mark}
use desiree_ia.Spm.Merge.{symbols, first_pairs, merge_loop}
use desiree_ia.Spm.Encode.{emit_from, encode_merge, encode}
use desiree_ia.Spm.Encoded.{encode_returns}

abbrev order : Order ℕ
order = record { less = ltb; same = ◌==◌; nought = 0 }

abbrev vocab : Vocab ℕ
vocab = record {
  tokens =
      codes "<unk>"
      ∷ codes "<0x41>"
      ∷ codes "a"
      ∷ codes "b"
      ∷ codes "ab"
      ∷ codes "aba"
      ∷ codes "<s>"
      ∷ space_mark
      ∷ [];
  scores = 0 ∷ 0 ∷ 1 ∷ 1 ∷ 5 ∷ 3 ∷ 0 ∷ 1 ∷ [];
  token_type = 2 ∷ 6 ∷ 1 ∷ 1 ∷ 1 ∷ 1 ∷ 3 ∷ 1 ∷ [];
  bos_id = some 6;
  eos_id = none;
  unk_id = some 0;
  add_space_prefix = false;
}

abbrev tokenizer : Tokenizer ℕ
tokenizer = record {
  tokens = vocab.tokens;
  scores = vocab.scores;
  byte_ids = (65, 1) ∷ [];
  specials = (codes "<s>", 6) ∷ [];
  bos_id = some 6;
  eos_id = none;
  unk_id = some 0;
  add_space_prefix = false;
}

loaded : load vocab ≡ some tokenizer
unfolding load byte_value
loaded = refl

encode_returns_example : (ids : List ℕ) × (encode order tokenizer (codes "abab c") true ≡ some ids)
encode_returns_example = encode_returns order tokenizer (codes "abab c") true

-- Two merges, a special token, the marker of a space, a byte and an unknown one.
ids_of_text :
    encode order tokenizer (codes "abab<s>a A?") true ≡ some (6 ∷ 4 ∷ 4 ∷ 6 ∷ 2 ∷ 7 ∷ 1 ∷ 0 ∷ [])
unfolding encode encode_merge symbols first_pairs merge_loop emit_from last_index equal is_prefix
    utf8_len
ids_of_text = refl

pieces : (piece tokenizer 7 ≡ some (codes " ")) × (piece tokenizer 1 ≡ some (codes "A"))
unfolding piece
pieces = (refl, refl)
