-- ===== src/HybridTier/Coherent.antt =====
-- ssd_tier/hybrid_tier.cpp, `read_tensor`: what it answers, when it answers, and how full it gets.
use desiree_ia.Prelude.{
  ℕ, zero, suc, ◌*◌, Bool, Option, none, some, List, [], ◌∷◌, length, ◌≡◌, arith, All, Option-cases,
  Bool-cases, leb, inl, inr, Bytes,
}
use mathlib.Core.Path.{subst}
use desiree_ia.HybridTier.{Floats, Source, Tier, bytes_key, count_read}
use desiree_ia.HybridTier.Lru.{Key, Entry, evict, make_room, find, remove, touch, count_of}
use desiree_ia.HybridTier.Tensors.{read_tensor_from_ssd, insert_tensor, fetch_tensor, read_tensor}
use desiree_ia.HybridTier.Eviction.{find-key}

module _ {K D : Type 0} (P : Entry K D → Type 0) where
  abbrev pub AllSome : Option (List (Entry K D)) → Type 0
  AllSome none = Unit
  AllSome (some l) = All P l

  pub All-evict : (l : List (Entry K D)) → All P l → AllSome (evict l)
  unfolding evict
  All-evict [] h = tt
  All-evict (x ∷ xs) h = ground (arith, All-evict xs h.1)

  pub All-make_room :
      (f capacity : ℕ) (l : List (Entry K D)) → All P l → AllSome (make_room f capacity l)
  unfolding make_room
  All-make_room zero capacity l h = tt
  All-make_room (suc f) capacity l h = elim (Option-cases (evict l)) [
    | inl n ↦ rw (n, make_room) (ground (arith, All-make_room f capacity l h))
    | inr (m, n) ↦
        let kept : All P m = rw n at (All-evict l h) in
        rw (n, make_room) (ground (arith, All-make_room f capacity m kept))
  ]

module _ {K D : Type 0} ⦃e : Key K⦄ (P : Entry K D → Type 0) where
  pub All-remove : (k : K) (l : List (Entry K D)) → All P l → All P (remove k l)
  unfolding remove
  All-remove k [] h = tt
  All-remove k (x ∷ xs) h = ground (arith, All-remove k xs h.1)

  pub All-find : (k : K) (l : List (Entry K D)) (x : Entry K D) → All P l → find k l ≡ some x → P x
  unfolding find
  All-find k [] x h q = cc
  All-find k (y ∷ xs) x h q = elim (Bool-cases (e.same y.key k)) [
    | inl hit ↦ let same : y ≡ x = ground arith in subst P same h.0
    | inr miss ↦ let later : find k xs ≡ some x = ground arith in All-find k xs x h.1 later
  ]

-- Every cached tensor is what the reader gives for its name.
abbrev pub IsCoherent : Source → List (Entry Bytes Floats) → Type 0
IsCoherent reader = All (λ x. reader.read_tensor x.key ≡ some x.content)

module _ (reader : Source) where
  -- A call that returns gives what the reader gives, and leaves the cache coherent.
  abbrev pub Serves : Bytes → Option (Tier × Option Floats) → Type 0
  Serves name none = Unit
  Serves name (some (t, got)) =
      (got ≡ reader.read_tensor name) × (t.source ≡ some reader) × IsCoherent reader t.tensors

  abbrev KeepsTier : Option Tier → Type 0
  KeepsTier none = Unit
  KeepsTier (some t) = (t.source ≡ some reader) × IsCoherent reader t.tensors

  insert_tensor-Keeps :
      (t : Tier) (name : Bytes) (content : Floats) (hits : ℕ) (pinned : Bool)
      → t.source ≡ some reader
      → IsCoherent reader t.tensors
      → reader.read_tensor name ≡ some content
      → KeepsTier (insert_tensor t name content hits pinned)
  unfolding insert_tensor
  insert_tensor-Keeps t name content hits pinned s c r =
      ground (arith, All-make_room _ (suc (length t.tensors)) t.config.ram_capacity t.tensors c)

  fetch_tensor-Serves :
      (t : Tier) (name : Bytes)
      → t.source ≡ some reader
      → IsCoherent reader t.tensors
      → Serves name (fetch_tensor t name)
  unfolding fetch_tensor read_tensor_from_ssd
  fetch_tensor-Serves t name s c = elim (Option-cases (reader.read_tensor name)) [
    | inl n ↦ ground arith
    | inr (content, r) ↦ ground (
      arith,
      insert_tensor-Keeps (count_read t (4 * length content)) name content 1
          (leb t.config.ram_pin_threshold (count_of name t.tensor_usage)) s c r,
    )
  ]

  -- In a coherent tier `read_tensor` answers as the reader itself does, from memory or not, and
  -- the tier stays coherent.
  pub read_tensor-Serves :
      (t : Tier) (name : Bytes)
      → t.source ≡ some reader
      → IsCoherent reader t.tensors
      → Serves name (read_tensor t name)
  unfolding read_tensor touch
  read_tensor-Serves t name s c = elim (Option-cases (find name t.tensors)) [
    | inl n ↦ rw (n, read_tensor) (fetch_tensor-Serves _ name s c)
    | inr (x, f) ↦
        rw (f, read_tensor)
          (ground (
            arith,
            All-remove _ x.key t.tensors c,
            All-find _ name t.tensors x c f,
            find-key name t.tensors x f,
          ))
  ]
