-- ===== src/ExpertStore/Kept.antt =====
-- expert/expert_store.cpp: the store that `fetch` leaves.
use desiree_ia.Prelude.{ℕ, none, some, ◌≡◌, refl, ◌∙◌, ap, arith, Option-cases, inl, inr}
use desiree_ia.HybridTier.{Floats, number_key}
use desiree_ia.HybridTier.Lru.{find}
use desiree_ia.HybridTier.Eviction.{find-key}
use desiree_ia.HybridTier.Coherent.{All-find}
use desiree_ia.ExpertStore.{
  Sources, Store, init, load_data, insert_locked, missed_once, keep, content_of,
}
use desiree_ia.ExpertStore.Sound.{IsSound, insert_locked-new, insert_locked-IsSound}

pub init-IsSound :
    (cache_count : ℕ) (sources : Sources) → IsSound sources (init cache_count sources)
unfolding init
init-IsSound cache_count sources = record {
  sourced = refl;
  coherent = tt;
  distinct = tt;
  bounded = inl (omega arith);
}

module _ (sources : Sources) where
  pub missed_once-IsSound :
      (s : Store) (key : ℕ) → IsSound sources s → IsSound sources (missed_once s key)
  missed_once-IsSound s key g = record {
    sourced = g.sourced;
    coherent = g.coherent;
    distinct = g.distinct;
    bounded = g.bounded;
  }

  inserted_content :
      (s : Store) (key : ℕ) (content : Floats)
      → find key s.order ≡ none
      → content_of key (insert_locked s key content).order ≡ content
  unfolding find
  inserted_content s key content f =
      ap (λ (t : Store). content_of key t.order) (insert_locked-new s key content f) ∙ ground arith

  pub keep-IsSound :
      (s : Store) (key : ℕ) (content : Floats)
      → IsSound sources s
      → load_data sources key ≡ some content
      → IsSound sources (keep s key content).0 × ((keep s key content).1 ≡ content)
  unfolding keep
  keep-IsSound s key content g e = elim (Option-cases (find key s.order)) [
    | inr (x, f) ↦
        let cached : load_data sources x.key ≡ some x.content =
          All-find _ key s.order x g.coherent f in
        let same : x.key ≡ key = find-key key s.order x f in
        rw (f, keep) (g, (ground (arith, cached, same, e)))
    | inl f ↦
        rw (f, keep)
          (insert_locked-IsSound sources s key content g e, inserted_content s key content f)
  ]
