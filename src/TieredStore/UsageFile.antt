-- ===== src/TieredStore/UsageFile.antt =====
-- ssd_tier/tiered_expert_store.cpp, `load_usage` and `save_usage`, whose code on the map is that of
-- ssd_tier/hybrid_tier.cpp. The name of the file is `path`.
use desiree_ia.Prelude.{Bytes}
use desiree_ia.HybridTier.Usage
use desiree_ia.Mirror.Files.{Files, Access}
use desiree_ia.TieredStore.{Store}

module _ (access : Access) where
  unfoldable pub load_usage : Files → Bytes → Store → Store
  load_usage files path s = record s { usage = Usage.load_usage access files path s.usage }

  unfoldable pub save_usage : Files → Bytes → Store → Files
  save_usage files path s = Usage.save_usage access files path s.usage
