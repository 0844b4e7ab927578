-- ===== src/SsdTier/Writes.antt =====
-- ssd_tier/ssd_tier.cpp, `write` and then `read`.
use desiree_ia.Prelude.{
  ℕ, ◌==◌, Bool, true, false, Option, none, some, List, [], ◌∷◌, ◌≡◌, refl, ap, ◌∙◌, arith, Bytes,
  Option-cases, inl, inr,
}
use mathlib.Core.Path.{subst}
use desiree_ia.HybridTier.{number_key, inc64}
use desiree_ia.HybridTier.Lru.{Entry, find, touch, remove}
use desiree_ia.HybridTier.Eviction.{find-key}
use desiree_ia.Mirror.Files.{Access}
use desiree_ia.SsdTier.{
  Tier, insert, evict_until, read, cache_write, write, write_model, write_mirror,
}

-- The block of the key is at the front of the cache.
abbrev pub InFront : ℕ → Bytes → Option Tier → Type 0
InFront key ds none = Unit
InFront key ds (some t) = (x : Entry ℕ Bytes) × (find key t.blocks ≡ some x) × (x.content ≡ ds)

find-front :
    (key : ℕ) (x : Entry ℕ Bytes) (l : List (Entry ℕ Bytes))
    → x.key ≡ key
    → find key (x ∷ l) ≡ some x
unfolding find
find-front key x l e = ground arith

pub find-other :
    (k : ℕ) (x : Entry ℕ Bytes) (l : List (Entry ℕ Bytes))
    → (x.key == k) ≡ false
    → find k (x ∷ l) ≡ find k l
unfolding find
find-other k x l n = rw n refl

pub find-remove_other :
    (k j : ℕ) (l : List (Entry ℕ Bytes)) → (j == k) ≡ false → find k (remove j l) ≡ find k l
unfolding find remove
find-remove_other k j [] n = refl
find-remove_other k j (x ∷ l) n = ground (arith, find-remove_other k j l n)

insert-InFront : (t : Tier) (key : ℕ) (ds : Bytes) → InFront key ds (insert t key ds)
unfolding insert
insert-InFront t key ds = elim (Option-cases (evict_until t t.config.cache_capacity)) [
  | inl n ↦ rw (n, insert) tt
  | inr (t', n) ↦ rw (n, insert) (_, find-front key _ t'.blocks refl, refl)
]

not_failed : (t t' : Tier) → ◌≡◌ {A = Option (Tier × Bool)} (some (t, false)) (some (t', true)) → ⊥
not_failed t t' e = cc

not_stuck : (t' : Tier) → ◌≡◌ {A = Option (Tier × Bool)} none (some (t', true)) → ⊥
not_stuck t' e = cc

same_tier :
    (t t' : Tier) → ◌≡◌ {A = Option (Tier × Bool)} (some (t, true)) (some (t', true)) → t ≡ t'
same_tier t t' e = cc

module _ (access : Access) where
  cache_write-InFront :
      (t : Tier) (key : ℕ) (ds : Bytes) → InFront key ds (cache_write access t key ds)
  unfolding cache_write touch
  cache_write-InFront t key ds = elim (Option-cases (find key t.blocks)) [
    | inl n ↦ rw (n, cache_write) (insert-InFront t key ds)
    | inr (x, f) ↦
        rw (f, cache_write)
          (_, find-front key _ (remove x.key t.blocks) (find-key key t.blocks x f), refl)
  ]

  write-InFront :
      (t t' : Tier) (key : ℕ) (ds : Bytes)
      → write access t key ds ≡ some (t', true)
      → InFront key ds (some t')
  unfolding write
  write-InFront t t' key ds h = elim (Option-cases (write_model access t key ds)) [
    | inl n ↦ absurd (not_failed _ t' (rw (n, write) at h))
    | inr (files, n) ↦
        let t0 : Tier = record t { files = write_mirror access t files key ds } in
        elim (Option-cases (cache_write access t0 key ds)) [
          | inl c ↦ absurd (not_stuck t' (rw (n, c, write) at h))
          | inr (t1, c) ↦
              let kept : InFront key ds (some t1) = rw c at (cache_write-InFront t0 key ds) in
              subst (λ t. InFront key ds (some t)) (same_tier t1 t' (rw (n, c, write) at h)) kept
        ]
  ]

  pub read-InFront :
      (t : Tier) (key : ℕ) (x : Entry ℕ Bytes)
      → find key t.blocks ≡ some x
      → read access t key
        ≡ some (record t { blocks = touch x t.blocks; hits = inc64 t.hits }, some x.content)
  unfolding read
  read-InFront t key x f = rw (f, read) refl

  -- After a write that says it succeeded, a read of the block returns and answers what was written.
  pub read_after_write :
      (t t' : Tier) (key : ℕ) (ds : Bytes)
      → write access t key ds ≡ some (t', true)
      → (t'' : Tier) × (read access t' key ≡ some (t'', some ds))
  read_after_write t t' key ds h =
      let (x, f, c) = write-InFront t t' key ds h in
      let t'' : Tier = record t' { blocks = touch x t'.blocks; hits = inc64 t'.hits } in
      (t'', read-InFront t' key x f ∙ ap (λ d. some (t'', some d)) c)
