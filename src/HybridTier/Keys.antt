-- ===== src/HybridTier/Keys.antt =====
-- ssd_tier/hybrid_tier.cpp, `make_key` and `unpack_key`.
use Prim.Native.Nat.{bit_or}
use desiree_ia.Prelude.{ℕ, ◌*◌, ◌/◌, ◌%◌, ◌^◌}

unfoldable pub make_key : ℕ → ℕ → ℕ → ℕ
make_key layer idx part = bit_or (bit_or (layer * 2 ^ 48 % 2 ^ 64) (idx * 2 ^ 8 % 2 ^ 64)) part

unfoldable pub unpack_key : ℕ → ℕ × ℕ × ℕ
unpack_key key = (key / 2 ^ 48 % 2 ^ 32, key / 2 ^ 8 % 2 ^ 32, key % 2 ^ 8)
