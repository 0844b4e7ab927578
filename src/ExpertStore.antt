-- ===== src/ExpertStore.antt =====
-- core/engine.h and expert/expert_store.cpp (src/DesireeIA.LocaleEngine/src): `ExpertStore`, the
-- cache of experts that the engine's thread and a prefetching thread share. The list `order_` and
-- the map `map_` into it are one list, as in HybridTier. What the model reader and the hybrid tier
-- answer are parameters, `Sources`: a function of layer, index and part, where `none` is a failed
-- read. An entry of 0 in `usage_` and no entry are the same.
pub mod UsageFile
pub mod Threads
pub mod Sound
pub mod Kept
pub mod Interleaved
pub mod Asked
pub mod Due
pub mod Worked
pub mod Pinned
pub mod Stays
pub mod Union
pub mod Raced
mod Tests
use desiree_ia.Prelude.{
  ℕ, zero, suc, ◌+◌, ◌/◌, ◌%◌, ◌^◌, Bool, true, false, ◌&&◌, ◌||◌, Option, none, some, List, [],
  ◌∷◌, ◌++◌, length, leb, ltb, ◌==◌, if◌then◌else◌,
}
use desiree_ia.HybridTier.{Floats, number_key}
use desiree_ia.HybridTier.Lru.{Entry, evict, find, touch, bump, count_of}
use desiree_ia.HybridTier.Keys.{make_key}
use desiree_ia.HybridTier.Experts.{keys_of_layer}

abbrev pub Reader : Type 0
Reader = ℕ → ℕ → ℕ → Option Floats

-- `reader_` and `hybrid_tier_`.
pub record Sources : Type 0 where
  pub reader : Option Reader
  pub tier : Option Reader

pub record Store : Type 0 where
  pub sources : Sources
  pub cache_count : ℕ
  pub prefetch_depth : ℕ
  pub pin_enabled : Bool
  pub order : List (Entry ℕ Floats)
  pub usage : List (ℕ × ℕ)

-- A count below 0 acts as 0.
unfoldable pub init : ℕ → Sources → Store
init cache_count sources = record {
  sources = sources;
  cache_count = if ltb 0 cache_count then cache_count else 256;
  prefetch_depth = 1;
  pin_enabled = true;
  order = [];
  usage = [];
}

unfoldable pub set_pin_enabled : Store → Bool → Store
set_pin_enabled s on = record s { pin_enabled = on }

-- A depth below 1 acts as 0.
unfoldable pub set_prefetch_depth : Store → ℕ → Store
set_prefetch_depth s depth = record s { prefetch_depth = if ltb 0 depth then depth else 1 }

abbrev pub pin_threshold : ℕ
pin_threshold = 4

-- With neither a reader nor a tier the data are one zero.
unfoldable pub load_data : Sources → ℕ → Option Floats
load_data sources key =
    let layer = key / 2 ^ 48 in
    let idx = key / 2 ^ 8 % 2 ^ 32 in
    let part = key % 2 ^ 8 in
    elim sources.reader [
      | some read ↦ read layer idx part
      | none ↦ elim sources.tier [ some read ↦ read layer idx part | none ↦ some (0 ∷ []) ]
    ]

abbrev pub has : ℕ → List (Entry ℕ Floats) → Bool
has key l = elim (find key l) [ none ↦ false | some x ↦ true ]

-- A full list gives up its last entry that is not pinned, where there is one.
unfoldable pub room : ℕ → List (Entry ℕ Floats) → List (Entry ℕ Floats)
room cache_count l =
    if leb cache_count (length l) then elim (evict l) [ none ↦ l | some l' ↦ l' ] else l

unfoldable pub insert_locked : Store → ℕ → Floats → Store
unfolding room
insert_locked s key content = if has key s.order then s else record s {
  order =
      record {
        key = key;
        content = content;
        hits = 0;
        pinned = s.pin_enabled && leb pin_threshold (count_of key s.usage);
      }
      ∷ room s.cache_count s.order;
}

-- The entry that `fetch` found moves to the front, counts the hit, and is pinned in time.
unfoldable pub found : Store → Entry ℕ Floats → Store
found s x =
    let y : Entry ℕ Floats = record x {
      pinned = x.pinned || (s.pin_enabled && leb pin_threshold ((x.hits + 1) % 2 ^ 32));
    } in
    record s { order = touch y s.order }

abbrev pub missed_once : Store → ℕ → Store
missed_once s key = record s { usage = bump key s.usage }

abbrev pub content_of : ℕ → List (Entry ℕ Floats) → Floats
content_of key l = elim (find key l) [ none ↦ [] | some x ↦ x.content ]

-- The end of `fetch`, once the data are read: the other thread may have brought them meanwhile.
unfoldable pub keep : Store → ℕ → Floats → Store × Floats
unfolding insert_locked
keep s key content = elim (find key s.order) [
  | some x ↦ (s, x.content)
  | none ↦ (insert_locked s key content, content_of key (insert_locked s key content).order)
]

-- `fetch` of a key, where no other thread comes between.
unfoldable pub fetch_key : Store → ℕ → Store × Option Floats
unfolding found load_data keep
fetch_key s key = elim (find key s.order) [
  | some x ↦ (found s x, some x.content)
  | none ↦
      let s' = missed_once s key in
      elim (load_data s'.sources key) [
        | none ↦ (s', none)
        | some content ↦ ((keep s' key content).0, some (keep s' key content).1)
      ]
]

abbrev pub fetch : Store → ℕ → ℕ → ℕ → Store × Option Floats
fetch s layer idx part = fetch_key s (make_key layer idx part)

pub record Request : Type 0 where
  pub layer : ℕ
  pub idx : ℕ
  pub part : ℕ

abbrev pub key_of : Request → ℕ
key_of r = make_key r.layer r.idx r.part

abbrev pub is_seen : ℕ → List ℕ → Bool
is_seen key [] = false
is_seen key (k ∷ seen) = k == key || is_seen key seen

-- A pointer into the entry of a key is the key; `none` is the null pointer.
abbrev pub pointer : ℕ → Store × Option Floats → Option ℕ
pointer key (s, none) = none
pointer key (s, some content) = if has key s.order then some key else none

-- The loop of `fetch_union` from the keys seen on. `meanwhile` is what the other thread does to the
-- store between the `fetch` of a key and the lock under which its pointer is taken; what it does
-- between the steps of `fetch` is in Threads.
unfoldable pub union_from :
    (ℕ → Store → Store) → Store → List ℕ → List Request → Store × List (Option ℕ)
unfolding fetch_key
union_from meanwhile s seen [] = (s, [])
union_from meanwhile s seen (r ∷ reqs) =
    let got = fetch s r.layer r.idx r.part in
    let s' = meanwhile (key_of r) got.0 in
    let next : Store × Option ℕ =
      if is_seen (key_of r) seen then (s, none) else (s', pointer (key_of r) (s', got.1)) in
    let seen' = if is_seen (key_of r) seen then seen else seen ++ key_of r ∷ [] in
    let rest = union_from meanwhile next.0 seen' reqs in (rest.0, next.1 ∷ rest.1)

unfoldable pub fetch_union : (ℕ → Store → Store) → Store → List Request → Store × List (Option ℕ)
unfolding union_from
fetch_union meanwhile s reqs = union_from meanwhile s [] reqs

-- The other thread does nothing.
abbrev pub undisturbed : ℕ → Store → Store
undisturbed key s = s

-- The body of the innermost loop of `prefetch_layer`.
unfoldable pub prefetch_key : Store → ℕ → Store
unfolding load_data insert_locked
prefetch_key s key =
    if has key s.order
    then s
    else elim (load_data s.sources key) [ none ↦ s | some content ↦ insert_locked s key content ]

unfoldable pub prefetch_keys : Store → List ℕ → Store
unfolding prefetch_key
prefetch_keys s [] = s
prefetch_keys s (key ∷ keys) = prefetch_keys (prefetch_key s key) keys

-- The loop of `prefetch_layer` over the layers from `layer` on; the keys of one are in the order
-- of its two loops.
unfoldable pub prefetch_layers : ℕ → Store → ℕ → List ℕ → Store
unfolding prefetch_keys keys_of_layer
prefetch_layers zero s layer idxs = s
prefetch_layers (suc d) s layer idxs =
    prefetch_layers d (prefetch_keys s (keys_of_layer layer idxs)) ((layer + 1) % 2 ^ 32) idxs

unfoldable pub prefetch_layer : Store → ℕ → List ℕ → Store
unfolding prefetch_layers
prefetch_layer s layer idxs = prefetch_layers s.prefetch_depth s layer idxs
