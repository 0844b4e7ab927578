-- ===== src/TieredStore/Methods.antt =====
-- ssd_tier/tiered_expert_store.cpp: the cache in memory after each method.
use desiree_ia.Prelude.{
  ℕ, Bool, true, false, Option, none, some, List, [], ◌∷◌, leb, if◌then◌else◌, Bytes, ◌≡◌, refl,
  sym, ap, arith, Option-cases, inl, inr,
}
use mathlib.Core.Path.{subst}
use desiree_ia.HybridTier.{Floats, number_key, inc64}
use desiree_ia.HybridTier.Lru.{find, count_of, bump}
use desiree_ia.HybridTier.Eviction.{length-remove}
use desiree_ia.HybridTier.Distinct.{
  Distinct, remove-Distinct, set_pinned-Distinct, length-set_pinned,
}
use desiree_ia.Mirror.Files.{Access}
use desiree_ia.SsdTier
use desiree_ia.TieredStore.{
  Store, pin, demote_to_ssd, add_ram, load_from_ssd, read_loaded, read, write_ram, write, read_all,
  prefetch, promote, demote,
}
use desiree_ia.TieredStore.Copies.{to_floats}
use desiree_ia.TieredStore.Kept.{
  any-Holds, Fewer, touched, demote_to_ssd-Fewer, bind-Holds, Holds-imp, Holds, IsKept,
  add_ram-IsKept,
}

module _ (access : Access) where
  abbrev Loads : Store → Store × Option Floats → Type 0
  Loads s (s', got) = (s'.ram ≡ s.ram) × (s'.config ≡ s.config)

  load_from_ssd-Loads : (s : Store) (key : ℕ) → Holds (Loads s) (load_from_ssd access s key)
  unfolding load_from_ssd
  load_from_ssd-Loads s key = loads (SsdTier.read access s.ssd key)
    where
      loads :
          (o : Option (SsdTier.Tier × Option Bytes))
          → Holds (Loads s) (elim o [
            | none ↦ none
            | some (ssd, none) ↦ some (record s { ssd = ssd }, none)
            | some (ssd, some bytes) ↦ some (record s { ssd = ssd }, to_floats bytes)
          ])
      loads none = tt
      loads (some (ssd, none)) = (refl, refl)
      loads (some (ssd, some bytes)) = (refl, refl)

  read_loaded-IsKept :
      (s : Store) (key : ℕ) (got : Option Floats)
      → IsKept s
      → find key s.ram ≡ none
      → Holds (λ p. IsKept p.0) (read_loaded access s key got)
  unfolding read_loaded
  read_loaded-IsKept s key none k n = record { distinct = k.distinct; bounded = k.bounded }
  read_loaded-IsKept s key (some content) k n =
      let s' : Store = record s { ssd_hits = inc64 s.ssd_hits } in
      let pinned : Bool = leb s.config.pin_threshold (count_of key s.usage) in
      bind-Holds {B = Store × Option Floats} IsKept (λ p. IsKept p.0)
        (add_ram access s' key content pinned) _
        (add_ram-IsKept access s' key content pinned k.distinct n) (λ s'' h. h)

  pub read-IsKept : (s : Store) (key : ℕ) → IsKept s → Holds (λ p. IsKept p.0) (read access s key)
  unfolding read
  read-IsKept s key k = elim (Option-cases (find key s.ram)) [
    | inl n ↦
        let s0 : Store = record s { ram_misses = inc64 s.ram_misses; usage = bump key s.usage } in
        rw (n, read)
          (bind-Holds (Loads s0) (λ p. IsKept p.0) (load_from_ssd access s0 key) _
            (load_from_ssd-Loads s0 key)
            (λ p l.
              read_loaded-IsKept p.0 key p.1
                (record {
                  distinct = subst Distinct (sym l.0) k.distinct;
                  bounded = rw (l.0, l.1) k.bounded;
                })
                (rw l.0 n)))
    | inr (x, f) ↦
        let (distinct, bounded) =
          touched s.config.ram_cache_capacity key x x s.ram f refl k.distinct k.bounded in
        rw (f, read) (record { distinct = distinct; bounded = bounded })
  ]

  write_ram-IsKept :
      (s : Store) (key : ℕ) (content : Floats)
      → IsKept s
      → Holds IsKept (write_ram access s key content)
  unfolding write_ram
  write_ram-IsKept s key content k = elim (Option-cases (find key s.ram)) [
    | inl n ↦ rw (n, write_ram) (add_ram-IsKept access s key content false k.distinct n)
    | inr (x, f) ↦
        let (distinct, bounded) =
          touched s.config.ram_cache_capacity key x (record x { content = content }) s.ram f refl
            k.distinct k.bounded in
        rw (f, write_ram) (record { distinct = distinct; bounded = bounded })
  ]

  Fewer-IsKept : (s s' : Store) → IsKept s → Fewer s s' → IsKept s'
  Fewer-IsKept s s' k f = record {
    distinct = f.distinct;
    bounded = omega (arith, k.bounded, f.shorter, ap (λ c. c.ram_cache_capacity) f.same);
  }

  pub write-IsKept :
      (s : Store) (key : ℕ) (content : Floats)
      → IsKept s
      → Holds (λ p. IsKept p.0) (write access s key content)
  unfolding write
  write-IsKept s key content k =
      bind-Holds IsKept (λ p. IsKept p.0) (demote_to_ssd access s key content) _
        (Holds-imp (λ s'. Fewer s s' × (s'.ram ≡ s.ram)) IsKept _ (λ s' f. Fewer-IsKept s s' k f.0)
          (demote_to_ssd-Fewer access s key content k.distinct))
        (λ s' k'.
          bind-Holds IsKept (λ p. IsKept p.0) (write_ram access s' key content) _
            (write_ram-IsKept s' key content k')
            (λ s'' k''. record { distinct = k''.distinct; bounded = k''.bounded }))

  read_all-IsKept : (s : Store) (keys : List ℕ) → IsKept s → Holds IsKept (read_all access s keys)
  unfolding read_all
  read_all-IsKept s [] k = k
  read_all-IsKept s (key ∷ keys) k =
      bind-Holds (λ p. IsKept p.0) IsKept (read access s key) _ (read-IsKept s key k)
        (λ p k'. read_all-IsKept p.0 keys k')

  pub prefetch-IsKept :
      (s : Store) (keys : List ℕ) → IsKept s → Holds IsKept (prefetch access s keys)
  unfolding prefetch
  prefetch-IsKept s keys k =
      bind-Holds (λ t. Unit) IsKept (SsdTier.prefetch access s.ssd keys) _ (any-Holds _)
        (λ t u.
          both s.config.prefetch_enabled (record s { ssd = t })
            (record { distinct = k.distinct; bounded = k.bounded }))
    where
      both :
          (b : Bool) (s' : Store)
          → IsKept s'
          → Holds IsKept (if b then read_all access s' keys else some s')
      both true s' k' = read_all-IsKept s' keys k'
      both false s' k' = k'

  pub promote-IsKept :
      (s : Store) (key : ℕ) → IsKept s → Holds (λ p. IsKept p.0) (promote access s key)
  unfolding promote
  promote-IsKept s key k = elim (Option-cases (find key s.ram)) [
    | inl n ↦ rw (n, promote) (loaded n (load_from_ssd access s key) (load_from_ssd-Loads s key))
    | inr (x, f) ↦ rw (f, promote) k
  ]
    where
      loaded :
          find key s.ram ≡ none
          → (o : Option (Store × Option Floats)) → Holds (Loads s) o
          → Holds {A = Store × Bool}
              (λ p. IsKept p.0)
              (elim o [
                | none ↦ none
                | some (s', none) ↦ some (s', false)
                | some (s', some content) ↦ elim (add_ram access s' key content true) [
                  | none ↦ none
                  | some s'' ↦ some (s'', true)
                ]
              ])
      loaded n none l = tt
      loaded n (some (s', none)) l = record {
        distinct = subst Distinct (sym l.0) k.distinct;
        bounded = rw (l.0, l.1) k.bounded;
      }
      loaded n (some (s', some content)) l =
          bind-Holds IsKept (λ p. IsKept p.0) (add_ram access s' key content true) _
            (add_ram-IsKept access s' key content true (subst Distinct (sym l.0) k.distinct)
              (rw l.0 n))
            (λ s'' k'. k')

  pub demote-IsKept :
      (s : Store) (key : ℕ) → IsKept s → Holds (λ p. IsKept p.0) (demote access s key)
  unfolding demote
  demote-IsKept s key k = elim (Option-cases (find key s.ram)) [
    | inl n ↦ rw (n, demote) k
    | inr (x, f) ↦
        rw (f, demote)
          (bind-Holds (λ s'. Fewer s s' × (s'.ram ≡ s.ram)) (λ p. IsKept p.0)
            (demote_to_ssd access s key x.content) _
            (demote_to_ssd-Fewer access s key x.content k.distinct)
            (λ s' f'. record {
              distinct = (remove-Distinct key s'.ram f'.0.distinct).0;
              bounded = omega (
                arith,
                length-remove key s'.ram x (rw f'.1 f),
                (Fewer-IsKept s s' k f'.0).bounded,
              );
            }))
  ]

pub pin-IsKept : (s : Store) (key : ℕ) (b : Bool) → IsKept s → IsKept (pin s key b).0
unfolding pin
pin-IsKept s key b k = elim (Option-cases (find key s.ram)) [
  | inl n ↦ rw (n, pin) k
  | inr (x, f) ↦
      rw (f, pin)
        (record {
          distinct = set_pinned-Distinct key b s.ram k.distinct;
          bounded = omega (arith, length-set_pinned key b s.ram, k.bounded);
        })
]
