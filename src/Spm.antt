-- ===== src/Spm.antt =====
-- tokenizer/spm_tokenizer.h and tokenizer/spm_tokenizer.cpp (src/DesireeIA.LocaleEngine/src):
-- `SpmTokenizer`. Its scores are floats, of which only the order counts where it merges: their type
-- and the two comparisons are parameters, `Order`. The search of `encode_viterbi`, which an
-- environment variable asks for, is left out, and with it `max_piece_cp_`.
pub mod Merge
pub mod Ends
pub mod Encode
pub mod Linked
pub mod Encoded
mod Tests
use desiree_ia.Prelude.{
  ℕ, zero, suc, ◌+◌, ◌-◌, ◌*◌, Bool, true, false, not, ◌&&◌, ◌||◌, Option, none, some, List, [],
  ◌∷◌, ◌++◌, get_elem?, is_empty, is_digit, is_prefix, leb, ◌==◌, if◌then◌else◌, Bytes,
}
use desiree_ia.Bpe.Encode.{last_index, sort_longest}

-- `<` and `==` of scores, and the score 0.
pub record Order (F : Type 0) : Type 0 where
  pub less : F → F → Bool
  pub same : F → F → Bool
  pub nought : F

-- `VocabData`; an id below 0 is `none`.
pub record Vocab (F : Type 0) : Type 0 where
  pub tokens : List Bytes
  pub scores : List F
  pub token_type : List ℕ
  pub bos_id : Option ℕ
  pub eos_id : Option ℕ
  pub unk_id : Option ℕ
  pub add_space_prefix : Bool

-- `byte_token_id_` is a list of bytes with their ids; `piece_to_id_` is looked up in `tokens`. The
-- buckets of `specials_` are one list, in which the first special token that a text begins with is
-- the one of its bucket.
pub record Tokenizer (F : Type 0) : Type 0 where
  pub tokens : List Bytes
  pub scores : List F
  pub byte_ids : List (ℕ × ℕ)
  pub specials : List (Bytes × ℕ)
  pub bos_id : Option ℕ
  pub eos_id : Option ℕ
  pub unk_id : Option ℕ
  pub add_space_prefix : Bool

unfoldable pub hex_val : ℕ → Option ℕ
hex_val c =
    if is_digit c
    then some (c - b'0')
    else if leb b'A' c && leb c b'F'
    then some (c - b'A' + 10)
    else if leb b'a' c && leb c b'f'
    then some (c - b'a' + 10)
    else none

-- The byte of a token `<0xNN>`.
unfoldable pub byte_value : Bytes → Option ℕ
unfolding hex_val
byte_value (a ∷ b ∷ c ∷ h ∷ l ∷ z ∷ []) =
    if a == b'<' && b == b'0' && c == b'x' && z == b'>'
    then elim (hex_val h) [
      | none ↦ none
      | some hi ↦ elim (hex_val l) [ none ↦ none | some lo ↦ some (hi * 16 + lo) ]
    ]
    else none
byte_value _ = none

-- The byte tokens from id `i` on; a later one counts, and stands first.
unfoldable pub bytes_from : ℕ → List Bytes → List (ℕ × ℕ) → List (ℕ × ℕ)
bytes_from i [] found = found
bytes_from i (t ∷ ts) found =
    bytes_from (suc i) ts (elim (byte_value t) [ none ↦ found | some b ↦ (b, i) ∷ found ])

-- The space marker, U+2581.
abbrev pub space_mark : Bytes
space_mark = 226 ∷ 150 ∷ 129 ∷ []

unfoldable pub has_mark : Bytes → Bool
unfolding is_prefix
has_mark [] = false
has_mark (c ∷ t) = is_prefix space_mark (c ∷ t) || has_mark t

-- The tokens of type CONTROL or USER_DEFINED with their ids.
unfoldable pub specials_from : ℕ → List Bytes → List ℕ → List (Bytes × ℕ)
unfolding has_mark
specials_from i (t ∷ ts) (ty ∷ tys) =
    let rest = specials_from (suc i) ts tys in
    if (ty == 3 || ty == 4) && not (is_empty t) && not (has_mark t) then (t, i) ∷ rest else rest
specials_from i _ _ = []

-- `none` is a load that returns false.
unfoldable pub load : {F : Type 0} → Vocab F → Option (Tokenizer F)
unfolding bytes_from specials_from sort_longest
load v =
    if is_empty v.tokens
    then none
    else some (record {
      tokens = v.tokens;
      scores = v.scores;
      byte_ids = bytes_from 0 v.tokens [];
      specials = sort_longest (specials_from 0 v.tokens v.token_type);
      bos_id = v.bos_id;
      eos_id = v.eos_id;
      unk_id = v.unk_id;
      add_space_prefix = v.add_space_prefix;
    })

unfoldable pub token_to_id : {F : Type 0} → Tokenizer F → Bytes → Option ℕ
unfolding last_index
token_to_id t p = last_index 0 t.tokens p

-- The loop of `piece` over a token that is no byte: `skipped` bytes of a marker are left.
unfoldable pub unmark : ℕ → Bytes → Bytes
unfolding is_prefix
unmark skipped [] = []
unmark (suc skipped) (c ∷ raw) = unmark skipped raw
unmark zero (c ∷ raw) =
    if is_prefix space_mark (c ∷ raw) then b' ' ∷ unmark 2 raw else c ∷ unmark 0 raw

unfoldable pub piece : {F : Type 0} → Tokenizer F → ℕ → Option Bytes
unfolding byte_value unmark
piece t id = elim (get_elem? t.tokens id) [
  | none ↦ none
  | some raw ↦ elim (byte_value raw) [ some b ↦ some (b ∷ []) | none ↦ some (unmark 0 raw) ]
]
