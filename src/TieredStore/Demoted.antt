-- ===== src/TieredStore/Demoted.antt =====
-- ssd_tier/tiered_expert_store.cpp: `demote` and then `read`.
use desiree_ia.Prelude.{ℕ}
use desiree_ia.HybridTier.{number_key, inc64}
use desiree_ia.HybridTier.Lru.{bump}
use desiree_ia.SsdTier
use desiree_ia.TieredStore.{Store}

-- A miss in memory is counted.
abbrev missed : Store → ℕ → Store
missed s key = record s { ram_misses = inc64 s.ram_misses; usage = bump key s.usage }
