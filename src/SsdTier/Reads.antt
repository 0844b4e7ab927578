-- ===== src/SsdTier/Reads.antt =====
-- ssd_tier/ssd_tier.cpp, `read` and `evict`.
use desiree_ia.Prelude.{
  ℕ, suc, ◌+◌, ◌-◌, ◌/◌, ◌%◌, ◌^◌, ◌≤◌, ◌<◌, false, Option, none, some, List, ◌∷◌, length, ◌≡◌,
  refl, sym, ap, ◌∙◌, arith, All, Bytes, Option-cases, inl, inr,
}
use mathlib.Core.Path.{subst}
use desiree_ia.HybridTier.{number_key, inc64}
use desiree_ia.HybridTier.Lru.{Entry, find, touch, make_room, count_pinned}
use desiree_ia.HybridTier.Eviction.{make_room_returns, find-key, length-remove, count_pinned-touch}
use desiree_ia.HybridTier.Coherent.{All-make_room, All-remove, All-find}
use desiree_ia.Mirror.Files.{Access}
use desiree_ia.SsdTier.{Tier, evict_until, insert, evict, read_block, read}

-- Eviction leaves fewer blocks than the capacity it is given, and no pinned block less.
abbrev Evicted : Tier → ℕ → Tier → Type 0
Evicted t capacity t' =
    (length t'.blocks < capacity) × (count_pinned t'.blocks ≡ count_pinned t.blocks)

evict_until_returns :
    (t : Tier) (capacity : ℕ)
    → count_pinned t.blocks < capacity
    → (room : List (Entry ℕ Bytes)) × (make_room (suc (length t.blocks)) capacity t.blocks
        ≡ some room)
      × (evict_until t capacity
          ≡ some (record t {
            blocks = room;
            evictions = (t.evictions + (length t.blocks - length room)) % 2 ^ 64;
          }))
      × (length room < capacity)
      × (count_pinned room ≡ count_pinned t.blocks)
unfolding evict_until
evict_until_returns t capacity h =
    let (room, e, lt, same) =
      make_room_returns (suc (length t.blocks)) capacity t.blocks h (omega arith) in
    (room, e, rw (e, evict_until) refl, lt, same)

-- With no more pinned blocks than half the capacity, `evict` returns, leaves no more blocks than
-- that, takes out no pinned block, and counts the ones it took out.
pub evict_returns :
    (t : Tier)
    → count_pinned t.blocks ≤ t.config.cache_capacity / 2
    → (t' : Tier) × (evict t ≡ some t')
      × (length t'.blocks ≤ t.config.cache_capacity / 2)
      × (count_pinned t'.blocks ≡ count_pinned t.blocks)
      × (t'.evictions ≡ (t.evictions + (length t.blocks - length t'.blocks)) % 2 ^ 64)
unfolding evict
evict_returns t h =
    let (room, m, e, lt, same) =
      evict_until_returns t (suc (t.config.cache_capacity / 2)) (omega arith) in
    (_, e, omega arith, same, refl)

module _ (access : Access) (t : Tier) where
  -- Every cached block is what the files have.
  abbrev pub IsCoherent : List (Entry ℕ Bytes) → Type 0
  IsCoherent = All (λ x. read_block access t x.key ≡ some x.content)

  -- What a read answers, and the tier that it leaves: one that meets the conditions of the read.
  abbrev pub Serves : ℕ → Option Bytes → Tier → Type 0
  Serves key got t' =
      (got ≡ read_block access t key)
      × (t'.files ≡ t.files)
      × IsCoherent t'.blocks
      × (length t'.blocks ≤ t.config.cache_capacity)
      × (count_pinned t'.blocks < t.config.cache_capacity)
      × (t'.config ≡ t.config)

  read-cached :
      (key : ℕ) (x : Entry ℕ Bytes)
      → find key t.blocks ≡ some x
      → IsCoherent t.blocks
      → length t.blocks ≤ t.config.cache_capacity
      → count_pinned t.blocks < t.config.cache_capacity
      → Serves key (some x.content) (record t { blocks = touch x t.blocks; hits = inc64 t.hits })
  unfolding touch
  read-cached key x f c h p =
      let cached = All-find _ key t.blocks x c f in
      let same : x.key ≡ key = find-key key t.blocks x f in
      let found : find x.key t.blocks ≡ some x =
        subst (λ j. find j t.blocks ≡ some x) (sym same) f in
      (
        sym cached ∙ ap (read_block access t) same,
        refl,
        (cached, All-remove _ x.key t.blocks c),
        omega (arith, length-remove x.key t.blocks x found),
        omega (arith, p, count_pinned-touch x t.blocks found),
        refl,
      )

  read_uncounted :
      (key : ℕ)
      → read_block access (record t { misses = inc64 t.misses }) key ≡ read_block access t key
  unfolding read_block
  read_uncounted key = refl

  -- What a read makes of what the files have, once the block is not cached.
  abbrev after : ℕ → Option Bytes → Option (Tier × Option Bytes)
  after key none = some (record t { misses = inc64 t.misses }, none)
  after key (some content) = elim (insert (record t { misses = inc64 t.misses }) key content) [
    | none ↦ none
    | some t' ↦ some (t', some content)
  ]

  read_missed :
      (key : ℕ) (got : Option Bytes)
      → find key t.blocks ≡ none
      → read_block access t key ≡ got
      → read access t key ≡ after key got
  unfolding read
  read_missed key none f e = rw (f, read, read_uncounted key ∙ e) refl
  read_missed key (some content) f e = rw (f, read, read_uncounted key ∙ e) refl

  insert-Serves :
      (key : ℕ) (content : Bytes)
      → count_pinned t.blocks < t.config.cache_capacity
      → IsCoherent t.blocks
      → read_block access t key ≡ some content
      → (t' : Tier) × (insert (record t { misses = inc64 t.misses }) key content ≡ some t')
        × Serves key (some content) t'
  unfolding insert count_pinned
  insert-Serves key content p c e =
      let t0 : Tier = record t { misses = inc64 t.misses } in
      let (room, m, i, lt, same) = evict_until_returns t0 t.config.cache_capacity p in
      let kept : IsCoherent room =
        rw m at (All-make_room _ (suc (length t.blocks)) t.config.cache_capacity t.blocks c) in
      (
        record t0 {
          blocks = record { key = key; content = content; hits = 1; pinned = false } ∷ room;
          evictions = (t.evictions + (length t.blocks - length room)) % 2 ^ 64;
        },
        rw (insert, i) refl,
        (sym e, refl, (e, kept), omega arith, omega (arith, same, p), refl),
      )

  -- Where fewer blocks are pinned than the capacity, each cached block is what the files have, and
  -- the cache keeps to the capacity, `read` returns, answers what the files have, changes no file
  -- and not the configuration, and leaves a cache of which all three hold again.
  pub read-read_block :
      (key : ℕ)
      → count_pinned t.blocks < t.config.cache_capacity
      → IsCoherent t.blocks
      → length t.blocks ≤ t.config.cache_capacity
      → (t' : Tier) × (got : Option Bytes) × (read access t key ≡ some (t', got))
        × Serves key got t'
  unfolding read insert
  read-read_block key p c h = elim (Option-cases (find key t.blocks)) [
    | inr (x, f) ↦ (
      record t { blocks = touch x t.blocks; hits = inc64 t.hits },
      some x.content,
      rw (f, read) refl,
      read-cached key x f c h p,
    )
    | inl f ↦ elim (Option-cases (read_block access t key)) [
      | inl e ↦ (
        record t { misses = inc64 t.misses },
        none,
        read_missed key none f e,
        (sym e, refl, c, h, p, refl),
      )
      | inr (content, e) ↦
          let (t', i, served) = insert-Serves key content p c e in
          (t', some content, read_missed key (some content) f e ∙ rw (after, i) refl, served)
    ]
  ]
