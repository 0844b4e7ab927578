-- ===== src/TieredStore/Tests.antt =====
-- ssd_tier/tiered_expert_store.cpp at a small file.
use desiree_ia.Prelude.{
  ℕ, true, false, Option, none, some, List, [], ◌∷◌, ◌≡◌, refl, equal, Bytes, codes, if◌then◌else◌,
}
use desiree_ia.HybridTier.{Floats, number_key}
use desiree_ia.HybridTier.Lru.{Entry, find}
use desiree_ia.Mirror.Files.{Files, Access}
use desiree_ia.SsdTier.{Tier}
use desiree_ia.SsdTier
use desiree_ia.TieredStore.{Config, Store, init, read, write}
use desiree_ia.TieredStore.Copies.{to_bytes}
use desiree_ia.TieredStore.Run.{Call, writes, promotes, demotes, pins, run}

abbrev access : Access
access = record {
  readable = λ path. true;
  writable = λ path. equal path (codes "m");
  seekable = λ offset. true;
}

abbrev files : Files
files = λ path. if equal path (codes "m") then some (1 ∷ 2 ∷ 3 ∷ []) else none

abbrev config : Bytes → Config
config path = record {
  ram_cache_capacity = 2;
  ssd_cache_capacity = 2;
  pin_threshold = 4;
  prefetch_enabled = true;
  model_path = path;
  mirror_path = [];
}

abbrev calls : List Call
calls = writes 0 (5 ∷ []) ∷ writes 0 (7 ∷ 8 ∷ []) ∷ promotes 0 ∷ pins 0 true ∷ []

last : Store
unfolding run write find
last = elim (run access (init (config (codes "m")) files) calls) [
  | none ↦ init (config (codes "m")) files
  | some s ↦ s
]

abbrev expert : Entry ℕ Floats
expert = record { key = 3; content = 7 ∷ 8 ∷ []; hits = 1; pinned = false }

store : Store
unfolding init
store = record (init (config (codes "m")) files) { ram = expert ∷ [] }

written : Tier
unfolding SsdTier.write store equal
written = elim (SsdTier.write access store.ssd 3 (to_bytes (7 ∷ 8 ∷ []))) [
  | none ↦ store.ssd
  | some p ↦ p.0
]

-- What a read answers after some calls; `none` where one of them never returns.
abbrev answer : Config → List Call → ℕ → Option (Option Floats)
answer c before key = elim (run access (init c files) before) [
  | none ↦ none
  | some s ↦ elim (read access s key) [ none ↦ none | some p ↦ some p.1 ]
]

-- A model that cannot be written: the write answers true, and the data is gone once it has left
-- the memory.
answer_lost : answer (config (codes "r")) (writes 0 (5 ∷ []) ∷ demotes 0 ∷ []) 0 ≡ some none
unfolding run read init equal SsdTier.write SsdTier.read
answer_lost = refl
