-- ===== src/HybridTier/Raws.antt =====
-- ssd_tier/hybrid_tier.cpp, `read_tensor_raw` and `evict_raw`: the cache counted in bytes.
use desiree_ia.Prelude.{
  ℕ, zero, suc, ◌+◌, ◌-◌, ◌||◌, Option, none, some, List, [], ◌∷◌, length, leb, ltb, ◌==◌,
  if◌then◌else◌, Bytes,
}
use desiree_ia.HybridTier.{Raw, Tier, bytes_key, inc64, count_read, count_error}
use desiree_ia.HybridTier.Lru.{Entry, find, touch, bump, count_of, evict}

-- `raw.size()` of an entry, and of the entry that `evict_raw` takes out.
abbrev pub entry_size : Entry Bytes Raw → ℕ
entry_size x = length x.content.bytes

unfoldable pub victim : List (Entry Bytes Raw) → ℕ
unfolding evict
victim [] = 0
victim (x ∷ xs) = elim (evict xs) [
  | some ys ↦ victim xs
  | none ↦ if x.pinned then 0 else entry_size x
]

-- `while (raw_bytes + size > budget) if (!evict_raw()) break;` Each round takes an entry out, so
-- the list gives the bound on the rounds.
unfoldable pub make_bytes : ℕ → ℕ → ℕ → List (Entry Bytes Raw) → ℕ → List (Entry Bytes Raw) × ℕ
unfolding evict victim
make_bytes zero size budget l total = (l, total)
make_bytes (suc f) size budget l total =
    if leb (total + size) budget then (l, total) else elim (evict l) [
      | none ↦ (l, total)
      | some l' ↦ make_bytes f size budget l' (total - victim l)
    ]

unfoldable pub read_tensor_raw_from_ssd : Tier → Bytes → Tier × Option Raw
read_tensor_raw_from_ssd t name = elim t.source [
  | none ↦ (t, none)
  | some reader ↦ elim (reader.read_tensor_raw name) [
    | none ↦ (count_error t, none)
    | some raw ↦ (count_read t (length raw.bytes), some raw)
  ]
]

-- What is done with a tensor that was just read.
unfoldable pub cache_raw : Tier → Bytes → Raw → Tier
unfolding make_bytes
cache_raw t name raw =
    let size = length raw.bytes in
    let budget = t.config.ram_bytes_max in
    if budget == 0 || ltb budget size
    then t
    else let (l, total) = make_bytes (length t.raws) size budget t.raws t.raw_bytes in
      if ltb budget (total + size) then record t { raws = l; raw_bytes = total } else record t {
        raws =
            record {
              key = name;
              content = raw;
              hits = 1;
              pinned = leb t.config.ram_pin_threshold (count_of name t.tensor_usage);
            }
            ∷ l;
        raw_bytes = total + size;
      }

unfoldable pub read_tensor_raw : Tier → Bytes → Tier × Option Raw
unfolding find touch bump read_tensor_raw_from_ssd cache_raw
read_tensor_raw t name = elim (find name t.raws) [
  | some x ↦ (record t { raws = touch x t.raws; ram_hits = inc64 t.ram_hits }, some x.content)
  | none ↦
      let (t', got) =
        read_tensor_raw_from_ssd
          (record t { ram_misses = inc64 t.ram_misses; tensor_usage = bump name t.tensor_usage })
          name in
      elim got [ none ↦ (t', none) | some raw ↦ (cache_raw t' name raw, some raw) ]
]
