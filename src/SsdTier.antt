-- ===== src/SsdTier.antt =====
-- ssd_tier/ssd_tier.h and ssd_tier/ssd_tier.cpp (src/DesireeIA.LocaleEngine/src): `SsdTier`, the cache
-- of blocks in front of a model file and its mirror. The files are those of Mirror, whose reads and
-- writes have the same code; the cache is a list as in HybridTier. Times, the mutex and the log are
-- left out. An operation answers `none` where the C++ call never returns.
pub mod Reads
pub mod Writes
pub mod Stale
mod Tests
use desiree_ia.Prelude.{
  ℕ, suc, ◌+◌, ◌-◌, ◌*◌, ◌/◌, ◌%◌, ◌^◌, Bool, true, false, not, Option, none, some, List, [], ◌∷◌,
  length, is_empty, if◌then◌else◌, Bytes,
}
use desiree_ia.HybridTier.{number_key, inc64}
use desiree_ia.HybridTier.Lru.{Entry, make_room, find, touch, set_pinned, count_pinned}
use desiree_ia.Mirror.Files.{Files, Access, read_file, write_file, left_by}

-- `SsdTierConfig`, the fields that are read. The capacity is taken not to be negative.
pub record Config : Type 0 where
  pub cache_capacity : ℕ
  pub model_path : Bytes
  pub mirror_path : Bytes

pub record Tier : Type 0 where
  pub config : Config
  pub files : Files
  pub blocks : List (Entry ℕ Bytes)
  pub hits : ℕ
  pub misses : ℕ
  pub evictions : ℕ

unfoldable pub init : Config → Files → Tier
init config files = record {
  config = config;
  files = files;
  blocks = [];
  hits = 0;
  misses = 0;
  evictions = 0;
}

abbrev pub block_size : ℕ
block_size = 4096

abbrev pub offset_of : ℕ → ℕ
offset_of key = key * block_size % 2 ^ 64

-- The blocks that `make_room` leaves, and each one that it took out is counted.
unfoldable pub evict_until : Tier → ℕ → Option Tier
unfolding make_room
evict_until t capacity = elim (make_room (suc (length t.blocks)) capacity t.blocks) [
  | none ↦ none
  | some room ↦ some (record t {
    blocks = room;
    evictions = (t.evictions + (length t.blocks - length room)) % 2 ^ 64;
  })
]

unfoldable pub insert : Tier → ℕ → Bytes → Option Tier
unfolding evict_until
insert t key content = elim (evict_until t t.config.cache_capacity) [
  | none ↦ none
  | some t' ↦ some (record t' {
    blocks = record { key = key; content = content; hits = 1; pinned = false } ∷ t'.blocks;
  })
]

unfoldable pub mirror_active : Tier → Bool
mirror_active t = not (is_empty t.config.mirror_path)

unfoldable pub evict : Tier → Option Tier
unfolding evict_until
evict t = evict_until t (suc (t.config.cache_capacity / 2))

-- `pin` and `unpin`, by the flag that is set.
unfoldable pub pin : Tier → ℕ → Bool → Tier × Bool
unfolding find set_pinned
pin t key b = elim (find key t.blocks) [
  | none ↦ (t, false)
  | some x ↦ (record t { blocks = set_pinned key b t.blocks }, true)
]

pub record Stats : Type 0 where
  pub hits : ℕ
  pub misses : ℕ
  pub evictions : ℕ
  pub current_size : ℕ
  pub pinned_count : ℕ

unfoldable pub stats : Tier → Stats
stats t = record {
  hits = t.hits;
  misses = t.misses;
  evictions = t.evictions;
  current_size = length t.blocks;
  pinned_count = count_pinned t.blocks;
}

unfoldable pub reset_stats : Tier → Tier
reset_stats t = record t { hits = 0; misses = 0; evictions = 0 }

module _ (access : Access) where
  -- A block as the files have it: of the model, else of the mirror.
  unfoldable pub read_block : Tier → ℕ → Option Bytes
  unfolding mirror_active read_file
  read_block t key =
      let first : Option Bytes =
        if is_empty t.config.model_path
        then none
        else read_file access t.files t.config.model_path (offset_of key) block_size [] in
      elim first [
        | some content ↦ some content
        | none ↦
            if mirror_active t
            then read_file access t.files t.config.mirror_path (offset_of key) block_size []
            else none
      ]

  unfoldable pub read : Tier → ℕ → Option (Tier × Option Bytes)
  unfolding find touch read_block insert
  read t key = elim (find key t.blocks) [
    | some x ↦ some (record t { blocks = touch x t.blocks; hits = inc64 t.hits }, some x.content)
    | none ↦
        let t' = record t { misses = inc64 t.misses } in
        elim (read_block t' key) [
          | none ↦ some (t', none)
          | some content ↦ elim (insert t' key content) [
            | none ↦ none
            | some t'' ↦ some (t'', some content)
          ]
        ]
  ]

  -- The files after a write to the model, if that was one.
  unfoldable pub write_model : Tier → ℕ → Bytes → Option Files
  unfolding write_file
  write_model t key ds =
      if is_empty t.config.model_path
      then none
      else write_file access t.files t.config.model_path (offset_of key) ds

  -- The files after a write to the model that failed.
  unfoldable pub left_model : Tier → Files
  unfolding left_by
  left_model t =
      if is_empty t.config.model_path then t.files else left_by access t.files t.config.model_path

  unfoldable pub write_mirror : Tier → Files → ℕ → Bytes → Files
  unfolding mirror_active write_file left_by
  write_mirror t files key ds =
      if mirror_active t
      then elim (write_file access files t.config.mirror_path (offset_of key) ds) [
        | none ↦ left_by access files t.config.mirror_path
        | some files' ↦ files'
      ]
      else files

  -- The cache after a write: a cached block moves to the front with what was written.
  unfoldable pub cache_write : Tier → ℕ → Bytes → Option Tier
  unfolding find touch insert
  cache_write t key ds = elim (find key t.blocks) [
    | some x ↦ some (record t { blocks = touch (record x { content = ds }) t.blocks })
    | none ↦ insert t key ds
  ]

  unfoldable pub write : Tier → ℕ → Bytes → Option (Tier × Bool)
  unfolding write_model left_model write_mirror cache_write
  write t key ds = elim (write_model t key ds) [
    | none ↦ some (record t { files = write_mirror t (left_model t) key ds }, false)
    | some files ↦ elim (cache_write (record t { files = write_mirror t files key ds }) key ds) [
      | none ↦ none
      | some t' ↦ some (t', true)
    ]
  ]

  -- The first loop of `prefetch`.
  unfoldable pub to_fetch : Tier → List ℕ → List ℕ
  unfolding find
  to_fetch t [] = []
  to_fetch t (key ∷ keys) = elim (find key t.blocks) [
    | none ↦ key ∷ to_fetch t keys
    | some x ↦ to_fetch t keys
  ]

  unfoldable pub read_all : Tier → List ℕ → Option Tier
  unfolding read
  read_all t [] = some t
  read_all t (key ∷ keys) = elim (read t key) [ none ↦ none | some (t', got) ↦ read_all t' keys ]

  unfoldable pub prefetch : Tier → List ℕ → Option Tier
  unfolding to_fetch read_all
  prefetch t keys = read_all t (to_fetch t keys)
