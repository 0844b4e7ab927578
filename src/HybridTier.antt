-- ===== src/HybridTier.antt =====
-- ssd_tier/hybrid_tier.h and ssd_tier/hybrid_tier.cpp (src/DesireeIA.LocaleEngine/src): the tier
-- that keeps tensors, experts and raw tensors in memory in front of the model reader.
-- A float is its bit pattern, which the tier only copies. The reader is a parameter, `Source`;
-- `none` is a failed read. Times are not modelled, nor is the mutex: a call is one step. An
-- operation answers `none` where the C++ call never returns (`Lru.make_room`).
pub mod Lru
pub mod Keys
pub mod Usage
pub mod Tensors
pub mod Raws
pub mod Experts
pub mod Eviction
pub mod Capacity
pub mod Budget
pub mod Distinct
pub mod Coherent
pub mod Answers
mod Tests
use desiree_ia.Prelude.{
  ℕ, zero, suc, ◌+◌, ◌*◌, ◌%◌, ◌^◌, Bool, true, false, Option, none, some, List, [], ◌∷◌, length,
  equal, equal_iff, ◌==◌, ==_iff, Bytes, if◌then◌else◌,
}
use Lru.{Key, Entry, count_pinned}

instance abbrev pub bytes_key : Key Bytes
bytes_key = record { same = equal; same_iff = equal_iff }

instance abbrev pub number_key : Key ℕ
number_key = record { same = ◌==◌; same_iff = ==_iff }

abbrev pub Floats : Type 0
Floats = List ℕ

-- The results of `ModelReader::read_tensor_raw`.
pub record Raw : Type 0 where
  pub bytes : Bytes
  pub quant_type : ℕ
  pub ne0 : ℕ
  pub rows : ℕ

-- `ModelReader`, as far as the tier calls it.
pub record Source : Type 0 where
  pub read_tensor : Bytes → Option Floats
  pub read_tensor_raw : Bytes → Option Raw
  pub read_expert : ℕ → ℕ → ℕ → Option Floats

-- `HybridTierConfig`, the fields that the operations read. A capacity below 0 acts as 0.
pub record Config : Type 0 where
  pub ram_capacity : ℕ
  pub ram_bytes_max : ℕ
  pub ram_pin_threshold : ℕ
  pub prefetch_enabled : Bool

-- `Impl`; `source` is `none` until `set_source`, and `gguf_opened` says that it is there.
pub record Tier : Type 0 where
  pub config : Config
  pub source : Option Source
  pub tensors : List (Entry Bytes Floats)
  pub experts : List (Entry ℕ Floats)
  pub raws : List (Entry Bytes Raw)
  pub raw_bytes : ℕ
  pub usage : List (ℕ × ℕ)
  pub tensor_usage : List (Bytes × ℕ)
  pub ram_hits : ℕ
  pub ram_misses : ℕ
  pub ssd_reads : ℕ
  pub ssd_errors : ℕ
  pub total_bytes_read : ℕ
  pub read_count : ℕ

abbrev pub inc64 : ℕ → ℕ
inc64 n = (n + 1) % 2 ^ 64

unfoldable pub init : Config → Tier
init c = record {
  config = c;
  source = none;
  tensors = [];
  experts = [];
  raws = [];
  raw_bytes = 0;
  usage = [];
  tensor_usage = [];
  ram_hits = 0;
  ram_misses = 0;
  ssd_reads = 0;
  ssd_errors = 0;
  total_bytes_read = 0;
  read_count = 0;
}

unfoldable pub set_source : Tier → Option Source → Tier
set_source t reader = record t { source = reader }

-- What every read that succeeds counts, and what one that fails counts.
abbrev pub count_read : Tier → ℕ → Tier
count_read t bytes = record t {
  ssd_reads = inc64 t.ssd_reads;
  total_bytes_read = (t.total_bytes_read + bytes) % 2 ^ 64;
  read_count = (t.read_count + 1) % 2 ^ 32;
}

abbrev pub count_error : Tier → Tier
count_error t = record t { ssd_errors = inc64 t.ssd_errors }

-- `Stats` less the average time.
pub record Stats : Type 0 where
  pub ram_hits : ℕ
  pub ram_misses : ℕ
  pub ssd_reads : ℕ
  pub ssd_errors : ℕ
  pub ram_size : ℕ
  pub pinned_count : ℕ
  pub total_bytes_read : ℕ

unfoldable pub stats : Tier → Stats
stats t = record {
  ram_hits = t.ram_hits;
  ram_misses = t.ram_misses;
  ssd_reads = t.ssd_reads;
  ssd_errors = t.ssd_errors;
  ram_size = length t.tensors + length t.experts;
  pinned_count = count_pinned t.tensors + count_pinned t.experts;
  total_bytes_read = t.total_bytes_read;
}

unfoldable pub reset_stats : Tier → Tier
reset_stats t = record t {
  ram_hits = 0;
  ram_misses = 0;
  ssd_reads = 0;
  ssd_errors = 0;
  total_bytes_read = 0;
  read_count = 0;
}
