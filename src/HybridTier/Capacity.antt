-- ===== src/HybridTier/Capacity.antt =====
-- ssd_tier/hybrid_tier.cpp, `read_tensor`: when the call returns, and how full the cache gets.
use desiree_ia.Prelude.{
  ℕ, suc, ◌*◌, ◌≤◌, ◌<◌, Bool, Option, none, some, length, ◌≡◌, refl, arith, Option-cases, leb, inl,
  inr, Bytes,
}
use desiree_ia.HybridTier.{Floats, Source, Tier, bytes_key, count_read}
use desiree_ia.HybridTier.Lru.{make_room, count_pinned, find, touch, count_of}
use desiree_ia.HybridTier.Tensors.{read_tensor_from_ssd, insert_tensor, fetch_tensor, read_tensor}
use desiree_ia.HybridTier.Eviction.{make_room_returns, make_room_hangs, length-remove, find-key}

-- The call returns, and leaves no more than `capacity` tensors.
abbrev pub Fits : ℕ → Option (Tier × Option Floats) → Type 0
Fits capacity none = ⊥
Fits capacity (some (t, got)) = (length t.tensors ≤ capacity) × (t.config.ram_capacity ≡ capacity)

abbrev FitsTier : ℕ → Option Tier → Type 0
FitsTier capacity none = ⊥
FitsTier capacity (some t) = (length t.tensors ≤ capacity) × (t.config.ram_capacity ≡ capacity)

insert_tensor-Fits :
    (t : Tier) (name : Bytes) (content : Floats) (hits : ℕ) (pinned : Bool)
    → count_pinned t.tensors < t.config.ram_capacity
    → FitsTier t.config.ram_capacity (insert_tensor t name content hits pinned)
unfolding insert_tensor
insert_tensor-Fits t name content hits pinned h =
    let (l, e, lt, same) =
      make_room_returns (suc (length t.tensors)) t.config.ram_capacity t.tensors h (omega arith) in
    rw (e, insert_tensor) (omega arith, refl)

fetch_tensor-Fits :
    (t : Tier) (name : Bytes)
    → count_pinned t.tensors < t.config.ram_capacity
    → length t.tensors ≤ t.config.ram_capacity
    → Fits t.config.ram_capacity (fetch_tensor t name)
unfolding fetch_tensor read_tensor_from_ssd
fetch_tensor-Fits t name h k = elim (Option-cases t.source) [
  | inl s ↦ ground arith
  | inr (reader, s) ↦ elim (Option-cases (reader.read_tensor name)) [
    | inl n ↦ ground arith
    | inr (content, r) ↦ ground (
      arith,
      insert_tensor-Fits (count_read t (4 * length content)) name content 1
          (leb t.config.ram_pin_threshold (count_of name t.tensor_usage)) h,
    )
  ]
]

-- With fewer pinned tensors than the capacity `read_tensor` returns, and a cache that kept to the
-- capacity still does.
pub read_tensor-Fits :
    (t : Tier) (name : Bytes)
    → count_pinned t.tensors < t.config.ram_capacity
    → length t.tensors ≤ t.config.ram_capacity
    → Fits t.config.ram_capacity (read_tensor t name)
unfolding read_tensor touch
read_tensor-Fits t name h k = elim (Option-cases (find name t.tensors)) [
  | inl n ↦ rw (n, read_tensor) (fetch_tensor-Fits _ name h k)
  | inr (x, f) ↦ ground (arith, length-remove name t.tensors x f, find-key name t.tensors x f)
]

-- Once the pinned tensors alone fill the capacity, a read of any other tensor that the reader has
-- does not return: the loop that makes room goes on for ever, whatever number of rounds it is
-- given.
pub read_tensor_hangs :
    (t : Tier) (name : Bytes) (reader : Source) (content : Floats)
    → t.source ≡ some reader
    → reader.read_tensor name ≡ some content
    → find name t.tensors ≡ none
    → t.config.ram_capacity ≤ count_pinned t.tensors
    → (read_tensor t name ≡ none)
      × ((rounds : ℕ) → make_room rounds t.config.ram_capacity t.tensors ≡ none)
unfolding read_tensor fetch_tensor read_tensor_from_ssd insert_tensor
read_tensor_hangs t name reader content s r f h = (
  ground (arith, make_room_hangs (suc (length t.tensors)) t.config.ram_capacity t.tensors h),
  λ rounds. make_room_hangs rounds t.config.ram_capacity t.tensors h,
)
