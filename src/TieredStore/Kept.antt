-- ===== src/TieredStore/Kept.antt =====
-- ssd_tier/tiered_expert_store.cpp: the cache in memory between the operations.
use desiree_ia.Prelude.{
  ℕ, zero, suc, ◌≤◌, ◌<◌, Bool, Option, none, some, List, [], ◌∷◌, length, ltb, ◌≡◌, refl, sym, ◌∙◌,
  arith, Option-cases, Bool-cases, inl, inr,
}
use mathlib.Core.Path.{subst}
use desiree_ia.HybridTier.{Floats, number_key}
use desiree_ia.HybridTier.Lru.{Entry, evict, find, touch}
use desiree_ia.HybridTier.Eviction.{Evicts, evict-Evicts, length-remove, find-key}
use desiree_ia.HybridTier.Distinct.{Distinct, SmallerThan, evict-SmallerThan, touch-Distinct}
use desiree_ia.Mirror.Files.{Access}
use desiree_ia.SsdTier
use desiree_ia.TieredStore.{
  Store, take_out, push_front, demote_to_ssd, evict_ram, make_room, add_ram,
}
use desiree_ia.TieredStore.Copies.{to_bytes}

-- What holds of a result that is there.
abbrev pub Holds : {A : Type 0} → (A → Type 0) → Option A → Type 0
Holds P none = Unit
Holds P (some a) = P a

pub bind-Holds :
    {A B : Type 0}
    → (P : A → Type 0) (Q : B → Type 0) (o : Option A) (k : A → Option B) → Holds P o
    → ((a : A) → P a → Holds Q (k a))
    → Holds Q (elim o [ none ↦ none | some a ↦ k a ])
bind-Holds P Q none k h f = tt
bind-Holds P Q (some a) k h f = f a h

pub Holds-imp :
    {A : Type 0} → (P Q : A → Type 0) (o : Option A) → ((a : A) → P a → Q a) → Holds P o → Holds Q o
Holds-imp P Q none f h = tt
Holds-imp P Q (some a) f h = f a h

pub any-Holds : {A : Type 0} → (o : Option A) → Holds (λ a. Unit) o
any-Holds none = tt
any-Holds (some a) = tt

-- No expert stands twice in memory, and there are no more than the capacity.
pub record IsKept (s : Store) : Type 0 where
  pub distinct : Distinct s.ram
  pub bounded : length s.ram ≤ s.config.ram_cache_capacity

abbrev others : Option (Entry ℕ Floats × List (Entry ℕ Floats)) → Option (List (Entry ℕ Floats))
others none = none
others (some (x, rest)) = some rest

take_out-evict : (l : List (Entry ℕ Floats)) → evict l ≡ others (take_out l)
unfolding take_out evict
take_out-evict [] = refl
take_out-evict (x ∷ xs) = elim (Option-cases (take_out xs)) [
  | inl n ↦
      let left : evict xs ≡ none = rw n at (take_out-evict xs) in
      elim (Bool-cases x.pinned) [ inl p ↦ simp (n, left, p) | inr p ↦ simp (n, left, p) ]
  | inr (p, n) ↦ let left : evict xs ≡ some p.1 = rw n at (take_out-evict xs) in simp (n, left)
]

-- Memory in which no more experts are found than in `s`.
pub record Fewer (s s' : Store) : Type 0 where
  pub same : s'.config ≡ s.config
  pub distinct : Distinct s'.ram
  pub shorter : length s'.ram ≤ length s.ram
  pub misses : (key : ℕ) → find key s.ram ≡ none → find key s'.ram ≡ none
  pub usage : s'.usage ≡ s.usage

Fewer-trans : (s s1 s2 : Store) → Fewer s s1 → Fewer s1 s2 → Fewer s s2
Fewer-trans s s1 s2 f g = record {
  same = g.same ∙ f.same;
  distinct = g.distinct;
  shorter = omega (arith, f.shorter, g.shorter);
  misses = λ k h. g.misses k (f.misses k h);
  usage = g.usage ∙ f.usage;
}

less-Fewer :
    (s : Store) (x : Entry ℕ Floats) (rest : List (Entry ℕ Floats))
    → take_out s.ram ≡ some (x, rest)
    → Distinct s.ram
    → Distinct rest
      × (length rest ≤ length s.ram)
      × ((key : ℕ) → find key s.ram ≡ none → find key rest ≡ none)
less-Fewer s x rest e d =
    let out : evict s.ram ≡ some rest = rw e at (take_out-evict s.ram) in
    let (distinct, misses) : SmallerThan s.ram (some rest) =
      rw out at (evict-SmallerThan s.ram d) in
    let less : Evicts s.ram (some rest) = rw out at (evict-Evicts s.ram) in
    (distinct, omega (arith, less.0), misses)

abbrev pub Roomy : Store → Store → Type 0
Roomy s s' = Fewer s s' × (length s'.ram < s'.config.ram_cache_capacity)

-- An entry that was found, as `y`, moves to the front.
pub touched :
    (c key : ℕ) (x y : Entry ℕ Floats) (l : List (Entry ℕ Floats))
    → find key l ≡ some x
    → y.key ≡ x.key
    → Distinct l
    → length l ≤ c
    → Distinct (touch y l) × (length (touch y l) ≤ c)
unfolding touch
touched c key x y l f same d le =
    let at_key : y.key ≡ key = same ∙ find-key key l x f in
    (
      touch-Distinct y l d,
      omega (arith, length-remove y.key l x (subst (λ k. find k l ≡ some x) (sym at_key) f)),
    )

module _ (access : Access) where
  pub demote_to_ssd-Fewer :
      (s : Store) (key : ℕ) (content : Floats)
      → Distinct s.ram
      → Holds (λ s'. Fewer s s' × (s'.ram ≡ s.ram)) (demote_to_ssd access s key content)
  unfolding demote_to_ssd
  demote_to_ssd-Fewer s key content d =
      bind-Holds (λ p. Unit) _ (SsdTier.write access s.ssd key (to_bytes content)) _ (any-Holds _)
        (λ p u. (
          record {
            same = refl;
            distinct = d;
            shorter = omega arith;
            misses = λ k h. h;
            usage = refl;
          },
          refl,
        ))

  evict_ram-Fewer : (s : Store) → Distinct s.ram → Holds (Fewer s) (evict_ram access s)
  unfolding evict_ram
  evict_ram-Fewer s d = elim (Option-cases (take_out s.ram)) [
    | inl n ↦
        rw (n, evict_ram)
          (record {
            same = refl;
            distinct = d;
            shorter = omega arith;
            misses = λ k h. h;
            usage = refl;
          })
    | inr ((x, rest), n) ↦
        let (distinct, shorter, misses) = less-Fewer s x rest n d in
        rw (n, evict_ram)
          (bind-Holds (λ s'. Fewer s s' × (s'.ram ≡ s.ram)) (Fewer s)
            (demote_to_ssd access s x.key x.content) _ (demote_to_ssd-Fewer s x.key x.content d)
            (λ s' f. record {
              same = f.0.same;
              distinct = distinct;
              shorter = shorter;
              misses = misses;
              usage = f.0.usage;
            }))
  ]

  make_room-Roomy : (f : ℕ) (s : Store) → Distinct s.ram → Holds (Roomy s) (make_room access f s)
  unfolding make_room
  make_room-Roomy zero s d = tt
  make_room-Roomy (suc f) s d = elim (Bool-cases (ltb (length s.ram) s.config.ram_cache_capacity)) [
    | inl e ↦
        rw (e, make_room)
          (
            record {
              same = refl;
              distinct = d;
              shorter = omega arith;
              misses = λ k h. h;
              usage = refl;
            },
            ground arith,
          )
    | inr e ↦
        rw (e, make_room)
          (bind-Holds (Fewer s) (Roomy s) (evict_ram access s) _ (evict_ram-Fewer s d) (λ s1 g.
            Holds-imp (Roomy s1) (Roomy s) (make_room access f s1)
              (λ s2 r. (Fewer-trans s s1 s2 g r.0, r.1)) (make_room-Roomy f s1 g.distinct)))
  ]

  pub add_ram-IsKept :
      (s : Store) (key : ℕ) (content : Floats) (pinned : Bool)
      → Distinct s.ram
      → find key s.ram ≡ none
      → Holds IsKept (add_ram access s key content pinned)
  unfolding add_ram push_front
  add_ram-IsKept s key content pinned d n =
      bind-Holds (Roomy s) IsKept (make_room access (suc (length s.ram)) s) _
        (make_room-Roomy (suc (length s.ram)) s d)
        (λ s' r. record {
          distinct = (r.0.misses key n, r.0.distinct);
          bounded = omega (arith, r.1);
        })
