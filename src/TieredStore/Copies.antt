-- ===== src/TieredStore/Copies.antt =====
-- ssd_tier/tiered_expert_store.cpp: the copies between floats and bytes. A float is four bytes, the
-- lowest first.
use desiree_ia.Prelude.{
  ℕ, ◌+◌, ◌*◌, ◌/◌, ◌%◌, ◌^◌, ◌<◌, Option, none, some, [], ◌∷◌, ◌≡◌, refl, arith, All, Bytes,
}
use desiree_ia.HybridTier.{Floats}

unfoldable pub to_bytes : Floats → Bytes
to_bytes [] = []
to_bytes (w ∷ ws) = w % 256 ∷ w / 256 % 256 ∷ w / 65536 % 256 ∷ w / 16777216 % 256 ∷ to_bytes ws

-- `none` where the number of bytes is no multiple of 4.
unfoldable pub to_floats : Bytes → Option Floats
to_floats [] = some []
to_floats (a ∷ b ∷ c ∷ d ∷ bytes) = elim (to_floats bytes) [
  | none ↦ none
  | some ws ↦ some ((a + 256 * b + 65536 * c + 16777216 * d) ∷ ws)
]
to_floats _ = none

-- The bit pattern of a float.
abbrev pub IsFloat : ℕ → Type 0
IsFloat w = w < 2 ^ 32

word_bytes :
    (w : ℕ)
    → w < 4294967296
    → w % 256 + 256 * (w / 256 % 256) + 65536 * (w / 65536 % 256) + 16777216 * (w / 16777216 % 256)
      ≡ w
word_bytes w h = omega arith

pub to_floats-to_bytes : (ws : Floats) → All IsFloat ws → to_floats (to_bytes ws) ≡ some ws
unfolding to_floats to_bytes
to_floats-to_bytes [] h = refl
to_floats-to_bytes (w ∷ ws) h = rw (to_floats-to_bytes ws h.1, to_floats) (rw (word_bytes w h.0))
