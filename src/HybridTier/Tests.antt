-- ===== src/HybridTier/Tests.antt =====
-- ssd_tier/hybrid_tier.cpp at a small reader.
use desiree_ia.Prelude.{
  ℕ, ◌<◌, Bool, true, false, none, some, List, [], ◌∷◌, length, ◌≡◌, refl, arith, equal, Bytes,
  codes, if◌then◌else◌,
}
use desiree_ia.HybridTier.{Floats, Raw, Source, Config, Tier, bytes_key}
use desiree_ia.Prelude.Decimal.{digits, scan}
use desiree_ia.Mirror.Files.{Access}
use desiree_ia.HybridTier.Keys.{make_key, unpack_key}
use desiree_ia.HybridTier.Usage.{
  put, load_usage, save_usage, text_of, line_of, load_lines, read_line, read_number, read_next,
  read_char, skip, read_signed, read_digits, fitting,
}
use desiree_ia.HybridTier.Usage.Saved.{load_usage-save_usage}
use desiree_ia.HybridTier.Lru.{Entry, make_room, count_pinned, find}
use desiree_ia.HybridTier.Tensors.{read_tensor}
use desiree_ia.HybridTier.Raws.{read_tensor_raw}
use desiree_ia.HybridTier.Eviction.{make_room_returns}
use desiree_ia.HybridTier.Capacity.{read_tensor_hangs}
use desiree_ia.HybridTier.Budget.{IsBudgeted, read_tensor_raw-IsBudgeted}

abbrev raw : Raw
raw = record { bytes = 1 ∷ 2 ∷ 3 ∷ []; quant_type = 8; ne0 = 3; rows = 1 }

abbrev reader : Source
reader = record {
  read_tensor = λ name. if equal name (codes "a") then some (7 ∷ []) else some (8 ∷ 9 ∷ []);
  read_tensor_raw = λ name. if equal name (codes "a") then some raw else none;
  read_expert = λ layer expert part. none;
}

abbrev config : Config
config = record {
  ram_capacity = 2;
  ram_bytes_max = 4;
  ram_pin_threshold = 3;
  prefetch_enabled = true;
}

abbrev held : Bytes → Floats → Bool → Entry Bytes Floats
held name content pinned = record { key = name; content = content; hits = 1; pinned = pinned }

abbrev raw_held : Entry Bytes Raw
raw_held = record { key = codes "a"; content = raw; hits = 1; pinned = false }

-- Full, with one tensor pinned.
abbrev tier : Tier
tier = record {
  config = config;
  source = some reader;
  tensors = held (codes "a") (7 ∷ []) true ∷ held (codes "b") (8 ∷ 9 ∷ []) false ∷ [];
  experts = [];
  raws = raw_held ∷ [];
  raw_bytes = 3;
  usage = [];
  tensor_usage = [];
  ram_hits = 0;
  ram_misses = 0;
  ssd_reads = 0;
  ssd_errors = 0;
  total_bytes_read = 0;
  read_count = 0;
}

abbrev pinned_tier : Tier
pinned_tier = record tier {
  tensors = held (codes "a") (7 ∷ []) true ∷ held (codes "b") (8 ∷ 9 ∷ []) true ∷ [];
}

one_pinned : count_pinned tier.tensors ≡ 1
unfolding count_pinned
one_pinned = refl

both_pinned : count_pinned pinned_tier.tensors ≡ 2
unfolding count_pinned
both_pinned = refl

not_there : find (codes "c") pinned_tier.tensors ≡ none
unfolding find equal
not_there = refl

reads_c : reader.read_tensor (codes "c") ≡ some (8 ∷ 9 ∷ [])
unfolding equal
reads_c = refl

raw_a : reader.read_tensor_raw (codes "a") ≡ some raw
unfolding equal
raw_a = refl

read_tensor_hangs_example :
    (read_tensor pinned_tier (codes "c") ≡ none)
    × ((rounds : ℕ) → make_room rounds 2 pinned_tier.tensors ≡ none)
read_tensor_hangs_example =
    read_tensor_hangs pinned_tier (codes "c") reader (8 ∷ 9 ∷ []) refl reads_c not_there
      (omega (arith, both_pinned))

make_room_returns_example :
    (l : List (Entry Bytes Floats)) × (make_room 3 2 tier.tensors ≡ some l)
    × (length l < 2)
    × (count_pinned l ≡ count_pinned tier.tensors)
make_room_returns_example =
    make_room_returns 3 2 tier.tensors (omega (arith, one_pinned)) (omega arith)

read_tensor_raw-IsBudgeted_example :
    IsBudgeted reader (read_tensor_raw tier (codes "d")).0
    × ((read_tensor_raw tier (codes "d")).1 ≡ reader.read_tensor_raw (codes "d"))
read_tensor_raw-IsBudgeted_example =
    read_tensor_raw-IsBudgeted reader tier (codes "d")
      (record { counted = refl; within = omega arith; coherent = (raw_a, tt); sourced = refl })

-- The counts of an expert of layer 1 and one of layer 0.
abbrev counts : List (ℕ × ℕ)
counts = (281474976711938, 3) ∷ (512, 12) ∷ []

abbrev access : Access
access = record { readable = λ path. true; writable = λ path. true; seekable = λ offset. true }

load_usage-save_usage_example :
    load_usage access (save_usage access (λ path. none) (codes "u") counts) (codes "u") [] ≡ counts
load_usage-save_usage_example =
    load_usage-save_usage access (λ path. none) (codes "u") counts refl refl refl
      (unfold make_key unpack_key in (refl, omega arith, (refl, tt), (refl, omega arith, tt, tt)))

counts_written : text_of counts ≡ codes "1:5:2:3\n0:2:0:12\n"
unfolding text_of line_of digits unpack_key
counts_written = refl

-- A line that cannot be read is left out; the separators may be any characters.
load_lines_broken :
    load_lines (codes "x" ∷ codes "0 ; 2,0 , 12" ∷ codes "0:2:0:5000000000" ∷ []) []
    ≡ (512, 12) ∷ []
unfolding load_lines read_line read_number read_next read_char skip read_signed read_digits fitting
    scan put make_key
load_lines_broken = refl
