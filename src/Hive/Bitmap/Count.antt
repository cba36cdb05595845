-- ===== src/Hive/Bitmap/Count.antt =====
-- How many of the first units have their bit set.
use hivex.Base.{
  ℕ, zero, suc, ◌+◌, ◌*◌, ◌/◌, ◌≤◌, ◌<◌, ◌≡◌, refl, arith, Bool, true, false, ◌==◌, Bool-cases, inl,
  inr,
}
use hivex.Hive.Bitmap.{bitmap_clr, bitmap_tst, bit_mask}
use hivex.Hive.Bitmap.Laws.{IsBitmap, tst-clr}

-- `BITMAP_TST` of the first byte of a unit.
abbrev unit_set : (ℕ → ℕ) → ℕ → Bool
unit_set b u = bitmap_tst b (4 * u)

abbrev pub bit : Bool → ℕ
bit true = 1
bit false = 0

unfoldable pub tally : (ℕ → ℕ) → ℕ → ℕ
tally b zero = 0
tally b (suc n) = bit (unit_set b n) + tally b n

bit_bound : (c : Bool) → bit c ≤ 1
bit_bound true = omega arith
bit_bound false = omega arith

pub tally_bound : (b : ℕ → ℕ) (n : ℕ) → tally b n ≤ n
unfolding tally
tally_bound b zero = omega arith
tally_bound b (suc n) = omega (arith, bit_bound (unit_set b n), tally_bound b n)

tst_unit : (b : ℕ → ℕ) (off : ℕ) → bitmap_tst b (4 * (off / 4)) ≡ bitmap_tst b off
unfolding bitmap_tst bit_mask
tst_unit b off = rw (byte, unit) refl
  where
    byte : 4 * (off / 4) / 32 ≡ off / 32
    byte = omega arith

    unit : 4 * (off / 4) / 4 ≡ off / 4
    unit = omega arith

module _ (b : ℕ → ℕ) (bytes : IsBitmap b) (off : ℕ) where
  unit_less : (u : ℕ) → bit (unit_set (bitmap_clr b off) u) ≤ bit (unit_set b u)
  unit_less u = ground (arith, tst-clr b bytes off (4 * u))

  -- Clearing a bit sets none.
  pub tally-clr : (n : ℕ) → tally (bitmap_clr b off) n ≤ tally b n
  unfolding tally
  tally-clr zero = omega arith
  tally-clr (suc n) = omega (arith, unit_less n, tally-clr n)

  module _ (set : bitmap_tst b off ≡ true) where
    unit_cleared : (u : ℕ) → u ≡ off / 4 → bit (unit_set (bitmap_clr b off) u) < bit (unit_set b u)
    unit_cleared u e = ground (arith, tst-clr b bytes off (4 * u), tst_unit b off, set, e)

    -- Clearing a bit that was set leaves fewer.
    pub tally-clr_set : (n : ℕ) → off / 4 < n → tally (bitmap_clr b off) n < tally b n
    unfolding tally
    tally-clr_set zero p = absurd (omega arith)
    tally-clr_set (suc n) p = elim (Bool-cases (n == off / 4)) [
      | inl e ↦ omega (arith, unit_cleared n (ground (arith, e)), tally-clr n)
      | inr e ↦ omega (arith, unit_less n, tally-clr_set n (ground (arith, e, p)))
    ]
