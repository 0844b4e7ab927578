-- ===== src/HybridTier/Budget.antt =====
-- ssd_tier/hybrid_tier.cpp, `read_tensor_raw`: the cache of raw tensors, its byte budget, and what it
-- answers.
use desiree_ia.Prelude.{
  ℕ, zero, suc, ◌+◌, ◌-◌, ◌≤◌, Option, none, some, List, [], ◌∷◌, length, ◌≡◌, arith, All,
  Option-cases, inl, inr, Bytes,
}
use desiree_ia.HybridTier.{Raw, Source, Tier, bytes_key, inc64, count_read}
use desiree_ia.HybridTier.Lru.{Entry, evict, find, remove, touch, bump}
use desiree_ia.HybridTier.Raws.{
  victim, make_bytes, read_tensor_raw_from_ssd, cache_raw, read_tensor_raw,
}
use desiree_ia.HybridTier.Eviction.{find-key}
use desiree_ia.HybridTier.Coherent.{All-remove, All-find}

-- The bytes that the entries hold.
abbrev pub total_size : List (Entry Bytes Raw) → ℕ
total_size [] = 0
total_size (x ∷ xs) = length x.content.bytes + total_size xs

abbrev pub IsRawCoherent : Source → List (Entry Bytes Raw) → Type 0
IsRawCoherent reader = All (λ x. reader.read_tensor_raw x.key ≡ some x.content)

abbrev Takes : Source → List (Entry Bytes Raw) → Option (List (Entry Bytes Raw)) → Type 0
Takes reader l none = Unit
Takes reader l (some l') = (total_size l ≡ total_size l' + victim l) × IsRawCoherent reader l'

module _ (reader : Source) where
  evict-Takes : (l : List (Entry Bytes Raw)) → IsRawCoherent reader l → Takes reader l (evict l)
  unfolding evict victim
  evict-Takes [] h = tt
  evict-Takes (x ∷ xs) h = ground (arith, evict-Takes xs h.1)

  -- `raw_bytes` counts what the list holds.
  make_bytes-total :
      (f size budget : ℕ) (l : List (Entry Bytes Raw)) (total : ℕ)
      → total ≡ total_size l
      → IsRawCoherent reader l
      → let (l', total') = make_bytes f size budget l total in
        (total' ≡ total_size l') × (total' ≤ total) × IsRawCoherent reader l'
  unfolding make_bytes
  make_bytes-total zero size budget l total e c = (e, omega arith, c)
  make_bytes-total (suc f) size budget l total e c = elim (Option-cases (evict l)) [
    | inl n ↦ ground arith
    | inr (m, n) ↦
        let took : Takes reader l (some m) = rw n at (evict-Takes l c) in
        let rest = make_bytes-total f size budget m (total - victim l) (omega arith) took.1 in
        ground arith
  ]

  -- The state of the raw cache that every read keeps.
  pub record IsBudgeted (t : Tier) : Type 0 where
    pub counted : t.raw_bytes ≡ total_size t.raws
    pub within : t.raw_bytes ≤ t.config.ram_bytes_max
    pub coherent : IsRawCoherent reader t.raws
    pub sourced : t.source ≡ some reader

  cache_raw-IsBudgeted :
      (t : Tier) (name : Bytes) (raw : Raw)
      → IsBudgeted t
      → reader.read_tensor_raw name ≡ some raw
      → IsBudgeted (cache_raw t name raw)
  unfolding cache_raw
  cache_raw-IsBudgeted t name raw v r =
      let made =
        make_bytes-total (length t.raws) (length raw.bytes) t.config.ram_bytes_max t.raws
          t.raw_bytes v.counted v.coherent in
      ground arith

total_size-remove :
    (name : Bytes) (l : List (Entry Bytes Raw)) (x : Entry Bytes Raw)
    → find name l ≡ some x
    → total_size l ≡ length x.content.bytes + total_size (remove name l)
unfolding find remove
total_size-remove name [] x h = cc
total_size-remove name (y ∷ l) x h = ground (arith, total_size-remove name l x)

-- The tier after a miss and a read of `raw`.
abbrev missed : Tier → Bytes → Raw → Tier
missed t name raw =
    count_read
      (record t { ram_misses = inc64 t.ram_misses; tensor_usage = bump name t.tensor_usage })
      (length raw.bytes)

-- In a tier whose count of raw bytes is what the cached tensors hold and keeps to the budget, and
-- whose cached tensors are what the reader gives, `read_tensor_raw` answers as the reader does
-- and leaves such a tier.
pub read_tensor_raw-IsBudgeted :
    (reader : Source) (t : Tier) (name : Bytes)
    → IsBudgeted reader t
    → IsBudgeted reader (read_tensor_raw t name).0
      × ((read_tensor_raw t name).1 ≡ reader.read_tensor_raw name)
unfolding read_tensor_raw touch read_tensor_raw_from_ssd
read_tensor_raw-IsBudgeted reader t name v = elim (Option-cases (find name t.raws)) [
  | inl n ↦ elim (Option-cases (reader.read_tensor_raw name)) [
    | inl m ↦ ground (arith, v.counted, v.within, v.coherent, v.sourced)
    | inr (raw, r) ↦ ground (
      arith,
      cache_raw-IsBudgeted reader (missed t name raw) name raw
          (record {
            counted = v.counted;
            within = v.within;
            coherent = v.coherent;
            sourced = v.sourced;
          })
          r,
    )
  ]
  | inr (x, f) ↦ ground (
    arith,
    All-remove _ x.key t.raws v.coherent,
    All-find _ name t.raws x v.coherent f,
    find-key name t.raws x f,
    total_size-remove name t.raws x f,
  )
]
