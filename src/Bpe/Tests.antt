-- ===== src/Bpe/Tests.antt =====
-- tokenizer/bpe_tokenizer.cpp at short texts.
use mathlib.Core.List.{flatten}
use desiree_ia.Prelude.{
  none, some, [], ◌∷◌, ◌≡◌, ◌≢◌, refl, arith, All, equal, codes, if◌then◌else◌,
}
use desiree_ia.Bpe.ByteMap.{map_bytes, unmap_bytes, char_len, utf8_len}
use desiree_ia.Bpe.Chunks.{pre_tokenize}
use desiree_ia.Bpe.Merge.{Ranks, bpe_merge, merge_loop, symbols_from, best_pair, merge_at}
use desiree_ia.Bpe.Maps.{unmap_bytes-map_bytes}
use desiree_ia.Bpe.Cover.{pre_tokenize-text}
use desiree_ia.Bpe.Merged.{Settled, bpe_merge-Settled}

abbrev ranks : Ranks
ranks p = if equal p (codes "l l") then some 0 else if equal p (codes "e ll") then some 1 else none

hello : bpe_merge ranks (codes "hello") ≡ codes "h" ∷ codes "ell" ∷ codes "o" ∷ []
unfolding bpe_merge merge_loop symbols_from best_pair merge_at char_len utf8_len equal
hello = refl

bpe_merge-Settled_example :
    (flatten (bpe_merge ranks (codes "hello")) ≡ codes "hello")
    × Settled ranks (bpe_merge ranks (codes "hello"))
bpe_merge-Settled_example = bpe_merge-Settled ranks (codes "hello")

pre_tokenize-text_example :
    (flatten (pre_tokenize (codes "It's 5  pm")) ≡ codes "It's 5  pm")
    × All (λ chunk. chunk ≢ []) (pre_tokenize (codes "It's 5  pm"))
pre_tokenize-text_example = pre_tokenize-text (codes "It's 5  pm")

unmap_bytes-map_bytes_example : unmap_bytes (map_bytes (32 ∷ 0 ∷ 200 ∷ [])) ≡ 32 ∷ 0 ∷ 200 ∷ []
unmap_bytes-map_bytes_example =
    unmap_bytes-map_bytes (32 ∷ 0 ∷ 200 ∷ []) (omega arith, (omega arith, (omega arith, tt)))
