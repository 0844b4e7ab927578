-- ===== src/HybridTier/Answers.antt =====
-- ssd_tier/hybrid_tier.cpp, `read_tensor`: whether it returns, and with which answer.
use desiree_ia.Prelude.{◌≤◌, ◌<◌, some, length, ◌≡◌}
use desiree_ia.HybridTier.{Source, Tier}
use desiree_ia.HybridTier.Lru.{count_pinned}
use desiree_ia.HybridTier.Coherent.{IsCoherent}

-- The tiers in which a read works: every cached tensor is what the reader gives for its name, the
-- pinned tensors leave room for another, and the cache keeps to its capacity.
pub record IsUsable (reader : Source) (t : Tier) : Type 0 where
  pub sourced : t.source ≡ some reader
  pub coherent : IsCoherent reader t.tensors
  pub roomy : count_pinned t.tensors < t.config.ram_capacity
  pub within : length t.tensors ≤ t.config.ram_capacity
