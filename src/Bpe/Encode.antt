-- ===== src/Bpe/Encode.antt =====
-- tokenizer/bpe_tokenizer.cpp: `load`, `token_to_id`, `piece`, `encode_plain` and `encode`.
use desiree_ia.Prelude.{
  ℕ, zero, suc, Bool, not, ◌&&◌, ◌||◌, Option, none, some, List, [], ◌∷◌, ◌++◌, length, drop,
  get_elem?, is_empty, ◌==◌, ltb, if◌then◌else◌, Bytes, equal, is_prefix,
}
use desiree_ia.Bpe.ByteMap.{map_bytes, unmap_bytes}
use desiree_ia.Bpe.Chunks.{pre_tokenize}
use desiree_ia.Bpe.Merge.{bpe_merge}

-- `VocabData`; an id below 0 is `none`.
pub record Vocab : Type 0 where
  pub tokens : List Bytes
  pub merges : List Bytes
  pub token_type : List ℕ
  pub bos_id : Option ℕ
  pub unk_id : Option ℕ
  pub add_bos : Bool

pub record Tokenizer : Type 0 where
  pub id_to_piece : List Bytes
  pub merges : List Bytes
  pub special_tokens : List (Bytes × ℕ)
  pub bos_id : Option ℕ
  pub unk_id : Option ℕ
  pub add_bos_default : Bool

-- The map that `m[list[i]] = i` builds, from index `i` on: the last one counts.
unfoldable pub last_index : ℕ → List Bytes → Bytes → Option ℕ
last_index i [] key = none
last_index i (x ∷ xs) key = elim (last_index (suc i) xs key) [
  | some j ↦ some j
  | none ↦ if equal x key then some i else none
]

-- The tokens of type UNKNOWN, CONTROL or USER_DEFINED with their ids.
unfoldable pub specials_from : ℕ → List Bytes → List ℕ → List (Bytes × ℕ)
specials_from i (t ∷ ts) (ty ∷ tys) =
    let rest = specials_from (suc i) ts tys in
    if ty == 2 || ty == 3 || ty == 4 then (t, i) ∷ rest else rest
specials_from i _ _ = []

-- The sort by falling length, as an insertion sort.
unfoldable pub insert_longest : Bytes × ℕ → List (Bytes × ℕ) → List (Bytes × ℕ)
insert_longest x [] = x ∷ []
insert_longest x (y ∷ ys) =
    if ltb (length x.0) (length y.0) then y ∷ insert_longest x ys else x ∷ y ∷ ys

unfoldable pub sort_longest : List (Bytes × ℕ) → List (Bytes × ℕ)
unfolding insert_longest
sort_longest [] = []
sort_longest (x ∷ xs) = insert_longest x (sort_longest xs)

-- `none` is a load that returns false.
unfoldable pub load : Vocab → Option Tokenizer
unfolding specials_from sort_longest
load v =
    if is_empty v.tokens
    then none
    else some (record {
      id_to_piece = v.tokens;
      merges = v.merges;
      special_tokens =
          if length v.token_type == length v.tokens
          then sort_longest (specials_from 0 v.tokens v.token_type)
          else [];
      bos_id = v.bos_id;
      unk_id = v.unk_id;
      add_bos_default = v.add_bos;
    })

-- `piece_to_id_.find(piece)`
abbrev pub piece_id : Tokenizer → Bytes → Option ℕ
piece_id t = last_index 0 t.id_to_piece

unfoldable pub special_id : List (Bytes × ℕ) → Bytes → Option ℕ
special_id [] p = none
special_id ((s, id) ∷ rest) p = if equal s p then some id else special_id rest p

unfoldable pub token_to_id : Tokenizer → Bytes → Option ℕ
unfolding special_id last_index
token_to_id t p = elim (special_id t.special_tokens p) [ some id ↦ some id | none ↦ piece_id t p ]

unfoldable pub piece : Tokenizer → ℕ → Option Bytes
piece t id = elim (get_elem? t.id_to_piece id) [ none ↦ none | some raw ↦ some (unmap_bytes raw) ]

-- The ids of the symbols of one chunk.
unfoldable pub symbol_ids : Tokenizer → List Bytes → List ℕ
unfolding last_index
symbol_ids t [] = []
symbol_ids t (sym ∷ syms) = elim (piece_id t sym) [
  | some id ↦ id ∷ symbol_ids t syms
  | none ↦ elim t.unk_id [ some unk ↦ unk ∷ symbol_ids t syms | none ↦ symbol_ids t syms ]
]

unfoldable pub chunk_ids : Tokenizer → List Bytes → List ℕ
unfolding symbol_ids
chunk_ids t [] = []
chunk_ids t (chunk ∷ chunks) =
    symbol_ids t (bpe_merge (last_index 0 t.merges) (map_bytes chunk)) ++ chunk_ids t chunks

unfoldable pub encode_plain : Tokenizer → Bytes → List ℕ
unfolding chunk_ids
encode_plain t text = chunk_ids t (pre_tokenize text)

-- The first special token, so the longest, that the text begins with.
unfoldable pub special_at : List (Bytes × ℕ) → Bytes → Option (Bytes × ℕ)
special_at [] text = none
special_at ((s, id) ∷ rest) text =
    if not (is_empty s) && is_prefix s text then some (s, id) else special_at rest text

-- The plain text read so far, if there is any.
unfoldable pub flush : Tokenizer → Bytes → List ℕ
unfolding encode_plain
flush t plain = if is_empty plain then [] else encode_plain t plain

-- The scan: `plain` is the text from `plain_start` to `pos`, and the list is what follows.
unfoldable pub scan : ℕ → Tokenizer → Bytes → Bytes → List ℕ
unfolding special_at flush
scan zero t plain text = []
scan (suc f) t plain [] = flush t plain
scan (suc f) t plain (c ∷ rest) = elim (special_at t.special_tokens (c ∷ rest)) [
  | none ↦ scan f t (plain ++ c ∷ []) rest
  | some (s, id) ↦ flush t plain ++ (id ∷ scan f t [] (drop (length s) (c ∷ rest)))
]

unfoldable pub encode : Tokenizer → Bytes → Bool → List ℕ
unfolding scan encode_plain
encode t text add_bos =
    let bos : List ℕ =
      if add_bos && t.add_bos_default
      then elim t.bos_id [ some id ↦ id ∷ [] | none ↦ [] ]
      else [] in
    bos
    ++ (if is_empty t.special_tokens
        then encode_plain t text
        else scan (suc (length text)) t [] text)
