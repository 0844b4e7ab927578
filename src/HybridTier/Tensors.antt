-- ===== src/HybridTier/Tensors.antt =====
-- ssd_tier/hybrid_tier.cpp: the operations on tensors by name.
use desiree_ia.Prelude.{
  ℕ, suc, ◌*◌, Bool, true, false, not, ◌||◌, Option, none, some, List, [], ◌∷◌, length, leb,
  if◌then◌else◌, Bytes,
}
use desiree_ia.HybridTier.{Floats, Tier, bytes_key, inc64, count_read, count_error}
use desiree_ia.HybridTier.Lru.{find, touch, set_pinned, make_room, bump, count_of, evict}

-- `read_tensor_from_ssd`
unfoldable pub read_tensor_from_ssd : Tier → Bytes → Tier × Option Floats
read_tensor_from_ssd t name = elim t.source [
  | none ↦ (t, none)
  | some reader ↦ elim (reader.read_tensor name) [
    | none ↦ (count_error t, none)
    | some content ↦ (count_read t (4 * length content), some content)
  ]
]

-- Room is made and a new entry goes to the front: the tail of the operations below.
unfoldable pub insert_tensor : Tier → Bytes → Floats → ℕ → Bool → Option Tier
unfolding make_room evict
insert_tensor t name content hits pinned =
    elim (make_room (suc (length t.tensors)) t.config.ram_capacity t.tensors) [
      | none ↦ none
      | some room ↦ some (record t {
        tensors = record { key = name; content = content; hits = hits; pinned = pinned } ∷ room;
      })
    ]

-- After a miss: the entry is pinned if the name was asked for often.
unfoldable pub fetch_tensor : Tier → Bytes → Option (Tier × Option Floats)
unfolding insert_tensor count_of
fetch_tensor t name =
    let (t', got) = read_tensor_from_ssd t name in
    elim got [
      | none ↦ some (t', none)
      | some content ↦
          elim (insert_tensor t' name content 1
            (leb t'.config.ram_pin_threshold (count_of name t'.tensor_usage))) [
              | none ↦ none
              | some t'' ↦ some (t'', some content)
            ]
    ]

-- `none` as the answer is a call that returns false.
unfoldable pub read_tensor : Tier → Bytes → Option (Tier × Option Floats)
unfolding fetch_tensor find touch bump
read_tensor t name = elim (find name t.tensors) [
  | some x ↦
      some (record t { tensors = touch x t.tensors; ram_hits = inc64 t.ram_hits }, some x.content)
  | none ↦
      fetch_tensor
        (record t { ram_misses = inc64 t.ram_misses; tensor_usage = bump name t.tensor_usage }) name
]

unfoldable pub write_tensor : Tier → Bytes → Floats → Option Tier
unfolding find touch insert_tensor
write_tensor t name content = elim (find name t.tensors) [
  | some x ↦ some (record t { tensors = touch (record x { content = content }) t.tensors })
  | none ↦ insert_tensor t name content 1 false
]

unfoldable pub is_open : Tier → Bool
is_open t = elim t.source [ none ↦ false | some reader ↦ true ]

-- One name of `prefetch_tensors`; a failed read is passed over.
unfoldable pub prefetch_one : Tier → Bytes → Option Tier
unfolding find read_tensor_from_ssd insert_tensor
prefetch_one t name = elim (find name t.tensors) [
  | some x ↦ some t
  | none ↦
      let (t', got) = read_tensor_from_ssd t name in
      elim got [ none ↦ some t' | some content ↦ insert_tensor t' name content 0 false ]
]

unfoldable pub prefetch_all : Tier → List Bytes → Option Tier
unfolding prefetch_one
prefetch_all t [] = some t
prefetch_all t (name ∷ names) = elim (prefetch_one t name) [
  | none ↦ none
  | some t' ↦ prefetch_all t' names
]

unfoldable pub prefetch_tensors : Tier → List Bytes → Option Tier
unfolding is_open prefetch_all
prefetch_tensors t names =
    if not t.config.prefetch_enabled || not (is_open t) then some t else prefetch_all t names

-- `pin_tensor` and `unpin_tensor`, by the flag that is set.
unfoldable pub pin_tensor : Tier → Bytes → Bool → Tier × Bool
unfolding find set_pinned
pin_tensor t name b = elim (find name t.tensors) [
  | none ↦ (t, false)
  | some x ↦ (record t { tensors = set_pinned name b t.tensors }, true)
]
