-- ===== src/HybridTier/Experts.antt =====
-- ssd_tier/hybrid_tier.cpp: the operations on experts by layer, index and part.
use desiree_ia.Prelude.{
  ℕ, suc, ◌*◌, Bool, true, false, not, ◌||◌, Option, none, some, List, [], ◌∷◌, length, leb, ltb,
  ◌++◌, if◌then◌else◌,
}
use desiree_ia.HybridTier.{Floats, Tier, number_key, inc64, count_read, count_error}
use desiree_ia.HybridTier.Lru.{find, remove, touch, set_pinned, make_room, bump, count_of, evict}
use desiree_ia.HybridTier.Keys.{make_key, unpack_key}
use desiree_ia.HybridTier.Tensors.{is_open}

unfoldable pub read_expert_from_ssd : Tier → ℕ → Tier × Option Floats
unfolding unpack_key
read_expert_from_ssd t key = elim t.source [
  | none ↦ (t, none)
  | some reader ↦
      let (layer, idx, part) = unpack_key key in
      if ltb 2 part then (t, none) else elim (reader.read_expert layer idx part) [
        | none ↦ (count_error t, none)
        | some content ↦ (count_read t (4 * length content), some content)
      ]
]

unfoldable pub insert_expert : Tier → ℕ → Floats → ℕ → Bool → Option Tier
unfolding make_room evict
insert_expert t key content hits pinned =
    elim (make_room (suc (length t.experts)) t.config.ram_capacity t.experts) [
      | none ↦ none
      | some room ↦ some (record t {
        experts = record { key = key; content = content; hits = hits; pinned = pinned } ∷ room;
      })
    ]

-- A read, and the insertion of what it brought.
unfoldable pub fetch_expert : Tier → ℕ → ℕ → (Tier → Bool) → Option (Tier × Option Floats)
unfolding read_expert_from_ssd insert_expert
fetch_expert t key hits pinned =
    let (t', got) = read_expert_from_ssd t key in
    elim got [
      | none ↦ some (t', none)
      | some content ↦ elim (insert_expert t' key content hits (pinned t')) [
        | none ↦ none
        | some t'' ↦ some (t'', some content)
      ]
    ]

unfoldable pub read_expert : Tier → ℕ → ℕ → ℕ → Option (Tier × Option Floats)
unfolding make_key find touch bump fetch_expert count_of
read_expert t layer idx part =
    let key = make_key layer idx part in
    elim (find key t.experts) [
      | some x ↦
          some
            (record t { experts = touch x t.experts; ram_hits = inc64 t.ram_hits }, some x.content)
      | none ↦
          fetch_expert (record t { ram_misses = inc64 t.ram_misses; usage = bump key t.usage }) key
            1 (λ t'. leb t'.config.ram_pin_threshold (count_of key t'.usage))
    ]

unfoldable pub write_expert : Tier → ℕ → ℕ → ℕ → Floats → Option Tier
unfolding make_key find touch bump insert_expert
write_expert t layer idx part content =
    let key = make_key layer idx part in
    let stored : Option Tier = elim (find key t.experts) [
      | some x ↦ some (record t { experts = touch (record x { content = content }) t.experts })
      | none ↦ insert_expert t key content 1 false
    ] in
    elim stored [ none ↦ none | some t' ↦ some (record t' { usage = bump key t'.usage }) ]

-- One key of `prefetch`.
unfoldable pub prefetch_expert : Tier → ℕ → Option Tier
unfolding find fetch_expert
prefetch_expert t key = elim (find key t.experts) [
  | some x ↦ some t
  | none ↦ elim (fetch_expert t key 0 (λ t'. false)) [ none ↦ none | some (t', got) ↦ some t' ]
]

unfoldable pub prefetch_keys : Tier → List ℕ → Option Tier
unfolding prefetch_expert
prefetch_keys t [] = some t
prefetch_keys t (key ∷ keys) = elim (prefetch_expert t key) [
  | none ↦ none
  | some t' ↦ prefetch_keys t' keys
]

-- The keys in the order of the three loops of `prefetch`.
unfoldable pub keys_of_layer : ℕ → List ℕ → List ℕ
unfolding make_key
keys_of_layer layer [] = []
keys_of_layer layer (idx ∷ rest) =
    make_key layer idx 0 ∷ make_key layer idx 1 ∷ make_key layer idx 2 ∷ keys_of_layer layer rest

unfoldable pub keys_of : List ℕ → List ℕ → List ℕ
unfolding keys_of_layer
keys_of [] idxs = []
keys_of (layer ∷ layers) idxs = keys_of_layer layer idxs ++ keys_of layers idxs

unfoldable pub prefetch : Tier → List ℕ → List ℕ → Option Tier
unfolding is_open prefetch_keys keys_of
prefetch t layers idxs =
    if not t.config.prefetch_enabled || not (is_open t)
    then some t
    else prefetch_keys t (keys_of layers idxs)

-- `false` where nothing could be read.
unfoldable pub promote : Tier → ℕ → ℕ → ℕ → Option (Tier × Bool)
unfolding make_key find set_pinned fetch_expert
promote t layer idx part =
    let key = make_key layer idx part in
    elim (find key t.experts) [
      | some x ↦ some (record t { experts = set_pinned key true t.experts }, true)
      | none ↦ elim (fetch_expert t key 1 (λ t'. true)) [
        | none ↦ none
        | some (t', got) ↦ some (t', elim got [ none ↦ false | some content ↦ true ])
      ]
    ]

unfoldable pub demote : Tier → ℕ → ℕ → ℕ → Tier × Bool
unfolding make_key find remove
demote t layer idx part =
    let key = make_key layer idx part in
    elim (find key t.experts) [
      | none ↦ (t, false)
      | some x ↦ (record t { experts = remove key t.experts }, true)
    ]

-- `pin` and `unpin`, by the flag that is set.
unfoldable pub pin : Tier → ℕ → ℕ → ℕ → Bool → Tier × Bool
unfolding make_key find set_pinned
pin t layer idx part b =
    let key = make_key layer idx part in
    elim (find key t.experts) [
      | none ↦ (t, false)
      | some x ↦ (record t { experts = set_pinned key b t.experts }, true)
    ]
