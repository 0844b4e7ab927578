-- ===== src/ExpertStore/Union.antt =====
-- expert/expert_store.cpp, `fetch_union`, and the `fetch` that it calls.
use desiree_ia.Prelude.{
  ℕ, true, false, ◌==◌, Option, none, some, List, [], ◌∷◌, ◌++◌, ◌≡◌, refl, sym, ◌∙◌, ap, arith,
  Option-cases, Bool-cases, inl, inr, if◌then◌else◌,
}
use desiree_ia.HybridTier.{Floats, number_key}
use desiree_ia.HybridTier.Lru.{Entry, find, touch, evict, bump, count_of}
use desiree_ia.HybridTier.Eviction.{find-key}
use desiree_ia.HybridTier.Coherent.{All-find}
use desiree_ia.ExpertStore.{
  Sources, Store, init, load_data, has, room, insert_locked, found, missed_once, keep, fetch_key,
  fetch, Request, key_of, is_seen, pointer, union_from, fetch_union, undisturbed,
}
use desiree_ia.ExpertStore.Sound.{IsSound, insert_locked-new, found-IsSound}
use desiree_ia.ExpertStore.Kept.{init-IsSound, keep-IsSound, missed_once-IsSound}

-- The pointer that a load of the key gives.
abbrev pub loaded_pointer : ℕ → Option Floats → Option ℕ
loaded_pointer key none = none
loaded_pointer key (some content) = some key

-- The pointers that the sources call for: none for a key that was seen, or cannot be read.
abbrev pub pointers : Sources → List ℕ → List Request → List (Option ℕ)
pointers sources seen [] = []
pointers sources seen (r ∷ reqs) =
    if is_seen (key_of r) seen
    then none ∷ pointers sources seen reqs
    else loaded_pointer (key_of r) (load_data sources (key_of r))
      ∷ pointers sources (seen ++ key_of r ∷ []) reqs

has-front :
    (key : ℕ) (x : Entry ℕ Floats) (l : List (Entry ℕ Floats))
    → x.key ≡ key
    → has key (x ∷ l) ≡ true
unfolding find
has-front key x l e = ground arith

has-found :
    (s : Store) (key : ℕ) (x : Entry ℕ Floats)
    → find key s.order ≡ some x
    → has key (found s x).order ≡ true
unfolding found touch
has-found s key x f = has-front key _ _ (find-key key s.order x f)

has-some :
    (key : ℕ) (l : List (Entry ℕ Floats)) (x : Entry ℕ Floats)
    → find key l ≡ some x
    → has key l ≡ true
has-some key l x f = rw (f, has) refl

has-keep : (s : Store) (key : ℕ) (content : Floats) → has key (keep s key content).0.order ≡ true
unfolding keep
has-keep s key content = elim (Option-cases (find key s.order)) [
  | inr (x, f) ↦ rw (f, keep) (has-some key s.order x f)
  | inl f ↦
      rw (f, keep)
        (ap (λ (t : Store). has key t.order) (insert_locked-new s key content f)
          ∙ has-front key _ (room s.cache_count s.order) refl)
]

module _ (sources : Sources) where
  -- What `fetch` answers and leaves in a sound store.
  abbrev Serves : ℕ → Store × Option Floats → Type 0
  Serves key p =
      IsSound sources p.0
      × (p.1 ≡ load_data sources key)
      × (pointer key p ≡ loaded_pointer key (load_data sources key))

  Serves-some :
      (key : ℕ) (s : Store) (content : Floats)
      → IsSound sources s
      → load_data sources key ≡ some content
      → has key s.order ≡ true
      → Serves key (s, some content)
  Serves-some key s content g e h = (g, sym e, rw (h, e) refl)

  Serves-none :
      (key : ℕ) (s : Store)
      → IsSound sources s
      → load_data sources key ≡ none
      → Serves key (s, none)
  Serves-none key s g e = (g, sym e, rw e refl)

  pub fetch-Serves :
      (s : Store) (r : Request)
      → IsSound sources s
      → Serves (key_of r) (fetch s r.layer r.idx r.part)
  unfolding fetch_key
  fetch-Serves s r g = elim (Option-cases (find (key_of r) s.order)) [
    | inr (x, f) ↦
        let cached = All-find _ (key_of r) s.order x g.coherent f in
        rw (f, fetch_key)
          (Serves-some (key_of r) (found s x) x.content (found-IsSound sources s (key_of r) x g f)
            (ap (load_data sources) (sym (find-key (key_of r) s.order x f)) ∙ cached)
            (has-found s (key_of r) x f))
    | inl f ↦
        let s' = missed_once s (key_of r) in
        let g' = missed_once-IsSound sources s (key_of r) g in
        let src = ap (λ t. load_data t (key_of r)) g.sourced in
        elim (Option-cases (load_data s.sources (key_of r))) [
          | inl e ↦ rw (f, e, fetch_key) (Serves-none (key_of r) s' g' (sym src ∙ e))
          | inr (content, e) ↦
              let (kept, same) = keep-IsSound sources s' (key_of r) content g' (sym src ∙ e) in
              rw (f, e, fetch_key)
                (Serves-some (key_of r) (keep s' (key_of r) content).0
                  (keep s' (key_of r) content).1 kept (sym src ∙ e ∙ ap (λ c. some c) (sym same))
                  (has-keep s' (key_of r) content))
        ]
  ]

  -- What the other thread does keeps the store sound, and the expert that was just fetched.
  pub record Spares (meanwhile : ℕ → Store → Store) : Type 0 where
    pub sound : (key : ℕ) (s : Store) → IsSound sources s → IsSound sources (meanwhile key s)
    pub spared :
        (key : ℕ) (s : Store) → has key s.order ≡ true → has key (meanwhile key s).order ≡ true

  pointer_later :
      (meanwhile : ℕ → Store → Store)
      → Spares meanwhile
      → (key : ℕ) (s : Store) (content : Floats) → pointer key (s, some content) ≡ some key
      → pointer key (meanwhile key s, some content) ≡ some key
  pointer_later meanwhile spares key s content e = elim (Bool-cases (has key s.order)) [
    | inl h ↦ rw (spares.spared key s h) refl
    | inr h ↦ absurd (ground arith)
  ]

  Serves-pointer :
      (meanwhile : ℕ → Store → Store)
      → Spares meanwhile
      → (key : ℕ) (s : Store) (got : Option Floats) → Serves key (s, got)
      → pointer key (meanwhile key s, got) ≡ loaded_pointer key (load_data sources key)
  Serves-pointer meanwhile spares key s none (g, e, same) = same
  Serves-pointer meanwhile spares key s (some content) (g, e, same) =
      let readable : loaded_pointer key (load_data sources key) ≡ some key =
        ap (loaded_pointer key) (sym e) in
      pointer_later meanwhile spares key s content (same ∙ readable) ∙ sym readable

  cons_same : {p q : Option ℕ} {ps qs : List (Option ℕ)} → p ≡ q → ps ≡ qs → (p ∷ ps) ≡ (q ∷ qs)
  cons_same e es = cc

  union_from-pointers :
      (meanwhile : ℕ → Store → Store)
      → Spares meanwhile
      → (s : Store) (seen : List ℕ) (reqs : List Request) → IsSound sources s
      → IsSound sources (union_from meanwhile s seen reqs).0
        × ((union_from meanwhile s seen reqs).1 ≡ pointers sources seen reqs)
  unfolding union_from
  union_from-pointers meanwhile spares s seen [] g = (g, refl)
  union_from-pointers meanwhile spares s seen (r ∷ reqs) g =
      elim (Bool-cases (is_seen (key_of r) seen)) [
        | inl e ↦
            let (sound, same) = union_from-pointers meanwhile spares s seen reqs g in
            rw (e, union_from) (sound, ap (λ ps. none ∷ ps) same)
        | inr e ↦
            let got = fetch s r.layer r.idx r.part in
            let served = fetch-Serves s r g in
            let (sound, rest) =
              union_from-pointers meanwhile spares (meanwhile (key_of r) got.0)
                (seen ++ key_of r ∷ []) reqs (spares.sound (key_of r) got.0 served.0) in
            rw (e, union_from)
              (
                sound,
                cons_same (Serves-pointer meanwhile spares (key_of r) got.0 got.1 served) rest,
              )
      ]

-- Where the other thread, each time between a `fetch` and the lock after it, leaves a sound store and
-- does not evict the expert that was fetched, `fetch_union` of a sound store gives no pointer for a
-- request whose key an earlier one of the call has or whose data cannot be read, and for each other
-- one a pointer into the entry of its key; and it leaves a sound store.
pub fetch_union-pointers :
    (sources : Sources) (meanwhile : ℕ → Store → Store) (s : Store) (reqs : List Request)
    → Spares sources meanwhile
    → IsSound sources s
    → IsSound sources (fetch_union meanwhile s reqs).0
      × ((fetch_union meanwhile s reqs).1 ≡ pointers sources [] reqs)
unfolding fetch_union
fetch_union-pointers sources meanwhile s reqs spares g =
    union_from-pointers sources meanwhile spares s [] reqs g

pub undisturbed-Spares : (sources : Sources) → Spares sources undisturbed
undisturbed-Spares sources = record { sound = λ key s g. g; spared = λ key s h. h }

pub ==-self : (k : ℕ) → (k == k) ≡ true
==-self k = ground arith

module _ (sources : Sources) where
  -- The store of capacity 1 after one `fetch`.
  abbrev pub holding : ℕ → Floats → List (ℕ × ℕ) → Store
  holding k x usage = record (init 1 sources) {
    order = record { key = k; content = x; hits = 0; pinned = false } ∷ [];
    usage = usage;
  }

  pub fetched_first :
      (k : ℕ) (x : Floats)
      → load_data sources k ≡ some x
      → (fetch_key (init 1 sources) k).0 ≡ holding k x ((k, 1) ∷ [])
  unfolding fetch_key keep insert_locked room evict find init bump count_of
  fetched_first k x e = simp (e, fetch_key, keep, insert_locked, ==-self k) refl

  fetched_second :
      (j k : ℕ) (x y : Floats)
      → (j == k) ≡ false
      → load_data sources k ≡ some y
      → (fetch_key (holding j x ((j, 1) ∷ [])) k).0 ≡ holding k y ((j, 1) ∷ (k, 1) ∷ [])
  unfolding fetch_key keep insert_locked room evict find init bump count_of
  fetched_second j k x y n e = simp (e, n, fetch_key, keep, insert_locked, has, ==-self k) refl

union_end :
    (sources : Sources) (a b : Request)
    → (key_of a == key_of b) ≡ false
    → find (key_of a) (fetch_union undisturbed (init 1 sources) (a ∷ b ∷ [])).0.order
      ≡ find (key_of a) (fetch_key (fetch_key (init 1 sources) (key_of a)).0 (key_of b)).0.order
unfolding fetch_union union_from
union_end sources a b n = simp (n, union_from) refl

pub find_other :
    (j k : ℕ) (y : Floats)
    → (j == k) ≡ false
    → find j (record { key = k; content = y; hits = 0; pinned = false } ∷ []) ≡ none
unfolding find
find_other j k y n = ground arith

-- With no step of another thread during the call, `fetch_union` of a new, empty store of capacity 1 and
-- two requests with different keys that can be read gives a pointer into the entry of each, and the
-- entry of the first is gone when it returns.
pub fetch_union_dangles :
    (sources : Sources) (a b : Request) (x y : Floats)
    → (key_of a == key_of b) ≡ false
    → load_data sources (key_of a) ≡ some x
    → load_data sources (key_of b) ≡ some y
    → ((fetch_union undisturbed (init 1 sources) (a ∷ b ∷ [])).1
        ≡ some (key_of a) ∷ some (key_of b) ∷ [])
      × (find (key_of a) (fetch_union undisturbed (init 1 sources) (a ∷ b ∷ [])).0.order ≡ none)
fetch_union_dangles sources a b x y n e f = (
  (fetch_union-pointers sources undisturbed (init 1 sources) (a ∷ b ∷ [])
        (undisturbed-Spares sources) (init-IsSound 1 sources)).1
      ∙ rw (n, e, f) refl,
  union_end sources a b n
      ∙ ap (λ (s : Store). find (key_of a) (fetch_key s (key_of b)).0.order)
          (fetched_first sources (key_of a) x e)
      ∙ ap (λ (s : Store). find (key_of a) s.order)
          (fetched_second sources (key_of a) (key_of b) x y n f)
      ∙ find_other (key_of a) (key_of b) y n,
)
