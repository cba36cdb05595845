-- ===== src/Hive/Bitmap.antt =====
-- `BITMAP_SET`, `BITMAP_CLR` and `BITMAP_TST` of lib/hivex-internal.h: one bit for four bytes.
pub mod Count
pub mod Laws
use hivex.Base.{ℕ, ◌-◌, ◌/◌, ◌%◌, ◌^◌, bit_and, bit_or, Bool, not, ◌==◌, if◌then◌else◌}

unfoldable pub bit_mask : ℕ → ℕ
bit_mask off = 2 ^ (off / 4 % 8)

unfoldable pub bitmap_set : (ℕ → ℕ) → ℕ → ℕ → ℕ
unfolding bit_mask
bitmap_set b off i = if i == off / 32 then bit_or (b i) (bit_mask off) else b i

unfoldable pub bitmap_clr : (ℕ → ℕ) → ℕ → ℕ → ℕ
unfolding bit_mask
bitmap_clr b off i = if i == off / 32 then bit_and (b i) (255 - bit_mask off) else b i

unfoldable pub bitmap_tst : (ℕ → ℕ) → ℕ → Bool
unfolding bit_mask
bitmap_tst b off = not (bit_and (b (off / 32)) (bit_mask off) == 0)
