-- ===== src/SsdTier/Tests.antt =====
-- ssd_tier/ssd_tier.cpp at a small file.
use desiree_ia.Prelude.{
  ℕ, ◌≤◌, ◌/◌, ◌+◌, ◌-◌, ◌%◌, ◌^◌, Bool, true, false, Option, none, some, [], ◌∷◌, length, ◌≡◌,
  refl, arith, equal, Bytes, codes, if◌then◌else◌,
}
use desiree_ia.HybridTier.{number_key}
use desiree_ia.HybridTier.Lru.{Entry, count_pinned, find}
use desiree_ia.Mirror.Files.{Access, write_file, seeks, open_write, open_read}
use desiree_ia.SsdTier.{
  Tier, read, write, write_model, write_mirror, cache_write, evict, mirror_active,
}
use desiree_ia.SsdTier.Reads.{evict_returns, Serves, read-read_block}
use desiree_ia.Mirror.Files.{resize}
use desiree_ia.SsdTier.Stale.{read_stale}
use desiree_ia.SsdTier.{read_block, block_size}
use desiree_ia.Prelude.{◌++◌}
use desiree_ia.SsdTier.Writes.{read_after_write}

abbrev access : Access
access = record {
  readable = λ path. equal path (codes "m");
  writable = λ path. true;
  seekable = λ offset. true;
}

abbrev block : ℕ → Bytes → Entry ℕ Bytes
block key content = record { key = key; content = content; hits = 1; pinned = false }

abbrev tier : Tier
tier = record {
  config = record { cache_capacity = 2; model_path = codes "m"; mirror_path = [] };
  files = λ path. if equal path (codes "m") then some (1 ∷ 2 ∷ 3 ∷ []) else none;
  blocks = block 0 (1 ∷ []) ∷ block 1 (5 ∷ []) ∷ [];
  hits = 0;
  misses = 0;
  evictions = 0;
}

evict_returns_example :
    (t' : Tier) × (evict tier ≡ some t')
    × (length t'.blocks ≤ tier.config.cache_capacity / 2)
    × (count_pinned t'.blocks ≡ count_pinned tier.blocks)
    × (t'.evictions ≡ (tier.evictions + (length tier.blocks - length t'.blocks)) % 2 ^ 64)
evict_returns_example = evict_returns tier (unfold count_pinned in omega arith)

abbrev cold_tier : Tier
cold_tier = record tier { blocks = [] }

read-read_block_example :
    (t' : Tier) × (got : Option Bytes) × (read access cold_tier 0 ≡ some (t', got))
    × Serves access cold_tier 0 got t'
read-read_block_example =
    read-read_block access cold_tier 0 (unfold count_pinned in omega arith) tt (omega arith)

abbrev written_tier : Option (Tier × Bool)
written_tier = write access tier 0 (7 ∷ 8 ∷ [])

written : Tier
unfolding write write_model write_mirror write_file seeks open_write open_read equal find
    cache_write mirror_active
written = elim written_tier [ none ↦ tier | some p ↦ p.0 ]

is_written : write access tier 0 (7 ∷ 8 ∷ []) ≡ some (written, true)
unfolding written
is_written = refl

read_after_write_example : (t'' : Tier) × (read access written 0 ≡ some (t'', some (7 ∷ 8 ∷ [])))
read_after_write_example = read_after_write access tier written 0 (7 ∷ 8 ∷ []) is_written

-- Two blocks of zeros but for their first bytes.
abbrev front : Bytes
front = resize 4096 (7 ∷ [])

abbrev rest : Bytes
rest = resize 4096 (9 ∷ [])

length_two : (length front ≡ block_size) × (length rest ≡ block_size)
unfolding resize
length_two = (refl, refl)

read_stale_example :
    (t' : Tier) × (write access tier 0 (front ++ rest) ≡ some (t', true))
    × (read_block access t' 1 ≡ some rest)
    × ((t'' : Tier) × (read access t' 1 ≡ some (t'', some (5 ∷ []))))
read_stale_example =
    read_stale access tier 0 front rest (block 1 (5 ∷ [])) (block 0 (1 ∷ [])) (unfold find in refl)
      (unfold find in refl) refl (unfold equal in refl) refl length_two.0 length_two.1 (omega arith)
      (unfold seeks in refl) (unfold seeks in refl)
