-- ===== src/TieredStore.antt =====
-- ssd_tier/tiered_expert_store.h and ssd_tier/tiered_expert_store.cpp (src/DesireeIA.LocaleEngine/src):
-- `TieredExpertStore`, a cache of experts in memory over the blocks of SsdTier. A float is its bit
-- pattern; the cache in memory is a list as in HybridTier. The log is left out.
-- An operation answers `none` where the C++ call never returns.
pub mod UsageFile
pub mod Copies
pub mod Kept
pub mod Methods
pub mod Demoted
pub mod Run
mod Tests
use desiree_ia.Prelude.{
  ℕ, zero, suc, Bool, true, false, Option, none, some, List, [], ◌∷◌, length, ltb, leb,
  if◌then◌else◌, Bytes,
}
use desiree_ia.HybridTier.{Floats, number_key, inc64}
use desiree_ia.HybridTier.Lru.{Entry, find, remove, touch, set_pinned, count_of, bump, count_pinned}
use desiree_ia.Mirror.Files.{Files, Access}
use desiree_ia.Mirror.Manager
use desiree_ia.SsdTier.{Tier}
use desiree_ia.SsdTier
use desiree_ia.TieredStore.Copies.{to_bytes, to_floats}

-- `TieredExpertConfig`, the fields that are read. A capacity below 0 acts as 0.
pub record Config : Type 0 where
  pub ram_cache_capacity : ℕ
  pub ssd_cache_capacity : ℕ
  pub pin_threshold : ℕ
  pub prefetch_enabled : Bool
  pub model_path : Bytes
  pub mirror_path : Bytes

-- `Impl`. The mirror manager is made and then only asked whether it is enabled.
pub record Store : Type 0 where
  pub config : Config
  pub ram : List (Entry ℕ Floats)
  pub ssd : Tier
  pub usage : List (ℕ × ℕ)
  pub ram_hits : ℕ
  pub ram_misses : ℕ
  pub ssd_hits : ℕ
  pub ssd_misses : ℕ

unfoldable pub init : Config → Files → Store
unfolding SsdTier.init
init config files = record {
  config = config;
  ram = [];
  ssd =
      SsdTier.init
        (record {
          cache_capacity = config.ssd_cache_capacity;
          model_path = config.model_path;
          mirror_path = config.mirror_path;
        })
        files;
  usage = [];
  ram_hits = 0;
  ram_misses = 0;
  ssd_hits = 0;
  ssd_misses = 0;
}

-- The last entry that is not pinned, and the others.
unfoldable pub take_out : List (Entry ℕ Floats) → Option (Entry ℕ Floats × List (Entry ℕ Floats))
take_out [] = none
take_out (x ∷ xs) = elim (take_out xs) [
  | some (y, ys) ↦ some (y, x ∷ ys)
  | none ↦ if x.pinned then none else some (x, xs)
]

-- A new entry in front.
unfoldable pub push_front : ℕ → Floats → Bool → Store → Store
push_front key data_ pinned s = record s {
  ram = record { key = key; content = data_; hits = 1; pinned = pinned } ∷ s.ram;
}

-- `pin` and `unpin`, by the flag that is set.
unfoldable pub pin : Store → ℕ → Bool → Store × Bool
unfolding find set_pinned
pin s key b = elim (find key s.ram) [
  | none ↦ (s, false)
  | some x ↦ (record s { ram = set_pinned key b s.ram }, true)
]

pub record Stats : Type 0 where
  pub ram_hits : ℕ
  pub ram_misses : ℕ
  pub ssd_hits : ℕ
  pub ssd_misses : ℕ
  pub ram_size : ℕ
  pub ssd_size : ℕ
  pub pinned_count : ℕ

unfoldable pub stats : Store → Stats
stats s = record {
  ram_hits = s.ram_hits;
  ram_misses = s.ram_misses;
  ssd_hits = s.ssd_hits;
  ssd_misses = s.ssd_misses;
  ram_size = length s.ram;
  ssd_size = (SsdTier.stats s.ssd).current_size;
  pinned_count = count_pinned s.ram;
}

unfoldable pub reset_stats : Store → Store
reset_stats s = record s {
  ram_hits = 0;
  ram_misses = 0;
  ssd_hits = 0;
  ssd_misses = 0;
  ssd = SsdTier.reset_stats s.ssd;
}

module _ (access : Access) where
  -- The answer of the write is not looked at.
  unfoldable pub demote_to_ssd : Store → ℕ → Floats → Option Store
  unfolding to_bytes
  demote_to_ssd s key content = elim (SsdTier.write access s.ssd key (to_bytes content)) [
    | none ↦ none
    | some (ssd, written) ↦ some (record s { ssd = ssd })
  ]

  unfoldable pub evict_ram : Store → Option Store
  unfolding take_out demote_to_ssd
  evict_ram s = elim (take_out s.ram) [
    | none ↦ some s
    | some (x, rest) ↦ elim (demote_to_ssd s x.key x.content) [
      | none ↦ none
      | some s' ↦ some (record s' { ram = rest })
    ]
  ]

  -- `while (size >= capacity) evict_ram();` with a bound on the rounds; `none` where it is met.
  unfoldable pub make_room : ℕ → Store → Option Store
  unfolding evict_ram
  make_room zero s = none
  make_room (suc f) s =
      if ltb (length s.ram) s.config.ram_cache_capacity
      then some s
      else elim (evict_ram s) [ none ↦ none | some s' ↦ make_room f s' ]

  -- Each round takes out an entry or changes nothing.
  unfoldable pub add_ram : Store → ℕ → Floats → Bool → Option Store
  unfolding make_room push_front
  add_ram s key content pinned = elim (make_room (suc (length s.ram)) s) [
    | none ↦ none
    | some s' ↦ some (push_front key content pinned s')
  ]

  unfoldable pub load_from_ssd : Store → ℕ → Option (Store × Option Floats)
  unfolding to_floats
  load_from_ssd s key = elim (SsdTier.read access s.ssd key) [
    | none ↦ none
    | some (ssd, none) ↦ some (record s { ssd = ssd }, none)
    | some (ssd, some bytes) ↦ some (record s { ssd = ssd }, to_floats bytes)
  ]

  -- What `read` does with an expert that was loaded.
  unfoldable pub read_loaded : Store → ℕ → Option Floats → Option (Store × Option Floats)
  unfolding add_ram count_of
  read_loaded s key none = some (record s { ssd_misses = inc64 s.ssd_misses }, none)
  read_loaded s key (some content) =
      let s' = record s { ssd_hits = inc64 s.ssd_hits } in
      elim (add_ram s' key content (leb s.config.pin_threshold (count_of key s.usage))) [
        | none ↦ none
        | some s'' ↦ some (s'', some content)
      ]

  unfoldable pub read : Store → ℕ → Option (Store × Option Floats)
  unfolding find touch bump load_from_ssd read_loaded
  read s key = elim (find key s.ram) [
    | some x ↦ some (record s { ram = touch x s.ram; ram_hits = inc64 s.ram_hits }, some x.content)
    | none ↦
        elim (load_from_ssd (record s { ram_misses = inc64 s.ram_misses; usage = bump key s.usage })
          key) [ none ↦ none | some (s', got) ↦ read_loaded s' key got ]
  ]

  -- The cache after a write: a cached expert moves to the front with what was written.
  unfoldable pub write_ram : Store → ℕ → Floats → Option Store
  unfolding find touch add_ram
  write_ram s key content = elim (find key s.ram) [
    | some x ↦ some (record s { ram = touch (record x { content = content }) s.ram })
    | none ↦ add_ram s key content false
  ]

  -- It always answers true.
  unfoldable pub write : Store → ℕ → Floats → Option (Store × Bool)
  unfolding demote_to_ssd write_ram bump
  write s key content = elim (demote_to_ssd s key content) [
    | none ↦ none
    | some s' ↦ elim (write_ram s' key content) [
      | none ↦ none
      | some s'' ↦ some (record s'' { usage = bump key s''.usage }, true)
    ]
  ]

  unfoldable pub read_all : Store → List ℕ → Option Store
  unfolding read
  read_all s [] = some s
  read_all s (key ∷ keys) = elim (read s key) [ none ↦ none | some (s', got) ↦ read_all s' keys ]

  unfoldable pub prefetch : Store → List ℕ → Option Store
  unfolding read_all
  prefetch s keys = elim (SsdTier.prefetch access s.ssd keys) [
    | none ↦ none
    | some ssd ↦
        let s' = record s { ssd = ssd } in
        if s.config.prefetch_enabled then read_all s' keys else some s'
  ]

  unfoldable pub promote : Store → ℕ → Option (Store × Bool)
  unfolding find load_from_ssd add_ram
  promote s key = elim (find key s.ram) [
    | some x ↦ some (s, true)
    | none ↦ elim (load_from_ssd s key) [
      | none ↦ none
      | some (s', none) ↦ some (s', false)
      | some (s', some content) ↦ elim (add_ram s' key content true) [
        | none ↦ none
        | some s'' ↦ some (s'', true)
      ]
    ]
  ]

  unfoldable pub demote : Store → ℕ → Option (Store × Bool)
  unfolding find remove demote_to_ssd
  demote s key = elim (find key s.ram) [
    | none ↦ some (s, false)
    | some x ↦ elim (demote_to_ssd s key x.content) [
      | none ↦ none
      | some s' ↦ some (record s' { ram = remove key s'.ram }, true)
    ]
  ]
