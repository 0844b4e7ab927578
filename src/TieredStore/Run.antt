-- ===== src/TieredStore/Run.antt =====
-- ssd_tier/tiered_expert_store.cpp: calls of the store, one after the other.
use desiree_ia.Prelude.{ℕ, Bool, Option, none, some, List, [], ◌∷◌}
use desiree_ia.HybridTier.{Floats}
use desiree_ia.Mirror.Files.{Files, Access}
use desiree_ia.TieredStore.{Store, reset_stats, pin, read, write, prefetch, promote, demote}

-- The methods that change the store; `pin` has the flag that it sets.
pub data Call : Type 0 where
  reads : ℕ → Call
  writes : ℕ → Floats → Call
  prefetches : List ℕ → Call
  promotes demotes : ℕ → Call
  pins : ℕ → Bool → Call
  resets : Call

module _ (access : Access) where
  unfoldable pub perform : Store → Call → Option Store
  unfolding read write prefetch promote demote pin reset_stats
  perform s (reads key) = elim (read access s key) [ none ↦ none | some (s', got) ↦ some s' ]
  perform s (writes key content) = elim (write access s key content) [
    | none ↦ none
    | some (s', done) ↦ some s'
  ]
  perform s (prefetches keys) = prefetch access s keys
  perform s (promotes key) = elim (promote access s key) [ none ↦ none | some (s', done) ↦ some s' ]
  perform s (demotes key) = elim (demote access s key) [ none ↦ none | some (s', done) ↦ some s' ]
  perform s (pins key b) = some (pin s key b).0
  perform s resets = some (reset_stats s)

  unfoldable pub run : Store → List Call → Option Store
  unfolding perform
  run s [] = some s
  run s (c ∷ calls) = elim (perform s c) [ none ↦ none | some s' ↦ run s' calls ]
