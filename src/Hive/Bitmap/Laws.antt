-- ===== src/Hive/Bitmap/Laws.antt =====
-- The bitmap is a set of four-byte units. The bit laws on a byte are tables checked by evaluation.
use Prim.Native.Nat.{bit_and-bitwise}
use hivex.Base.{
  ℕ, zero, suc, ◌-◌, ◌/◌, ◌%◌, ◌^◌, ◌<◌, ◌≡◌, refl, arith, ltb, bit_and, bit_or, Bool, true, false,
  not, ◌&&◌, ◌||◌, ◌==◌,
}
use hivex.Hive.Bitmap.{bit_mask, bitmap_set, bitmap_clr, bitmap_tst}

-- `p` holds of all numbers below `n`.
unfoldable pub each : (ℕ → Bool) → ℕ → Bool
each p zero = true
each p (suc n) = each p n && p n

module _ (p : ℕ → Bool) (x : ℕ) where
  pub each_at : (n : ℕ) → x < n → each p n ≡ true → p x ≡ true
  unfolding each
  each_at (suc n) inside all = ground (arith, each_at n)
  each_at zero inside all = absurd (omega arith)

abbrev same : Bool → Bool → Bool
same true b = b
same false b = not b

same→eq : (a b : Bool) → same a b ≡ true → a ≡ b
same→eq true b h = ground arith
same→eq false b h = ground arith

abbrev has_bit : ℕ → ℕ → Bool
has_bit b j = not (bit_and b (2 ^ j) == 0)

abbrev check3 : (ℕ → ℕ → ℕ → Bool) → Bool
check3 p = each (λ k. each (λ j. each (λ b. p k j b) 256) 8) 8

check3_sound :
    (p : ℕ → ℕ → ℕ → Bool) (k j b : ℕ) → check3 p ≡ true → k < 8 → j < 8 → b < 256 → p k j b ≡ true
check3_sound p k j b h hk hj hb = each_at (p k j) b 256 hb (
    each_at (λ j. each (p k j) 256) j 8 hj (each_at (λ k. each (λ j. each (p k j) 256) 8) k 8 hk h))

set_table : check3 (λ k j b. same (has_bit (bit_or b (2 ^ k)) j) (k == j || has_bit b j)) ≡ true
unfolding each
set_table = refl

clr_table :
    check3 (λ k j b. same (has_bit (bit_and b (255 - 2 ^ k)) j) (not (k == j) && has_bit b j))
    ≡ true
unfolding each
clr_table = refl

byte_table :
    check3 (λ k j b. ltb (bit_or b (2 ^ k)) 256 && ltb (bit_and b (255 - 2 ^ k)) 256) ≡ true
unfolding each
byte_table = refl

module _ (k j b : ℕ) (hk : k < 8) (hj : j < 8) (hb : b < 256) where
  set_row : has_bit (bit_or b (2 ^ k)) j ≡ (k == j || has_bit b j)
  set_row = same→eq _ _ (check3_sound _ k j b set_table hk hj hb)

  clr_row : has_bit (bit_and b (255 - 2 ^ k)) j ≡ (not (k == j) && has_bit b j)
  clr_row = same→eq _ _ (check3_sound _ k j b clr_table hk hj hb)

  byte_row : (bit_or b (2 ^ k) < 256) × (bit_and b (255 - 2 ^ k) < 256)
  byte_row = ground (
    arith,
    check3_sound (λ k j b. ltb (bit_or b (2 ^ k)) 256 && ltb (bit_and b (255 - 2 ^ k)) 256) k j b
        byte_table hk hj hb,
  )

-- Every byte of the bitmap is a byte.
abbrev pub IsBitmap : (ℕ → ℕ) → Type 0
IsBitmap b = (i : ℕ) → b i < 256

-- Two offsets of one unit share their bit, and others do not.
abbrev pub same_unit : ℕ → ℕ → Bool
same_unit off p = off / 4 == p / 4

module _ (b : ℕ → ℕ) (bytes : IsBitmap b) (off p : ℕ) where
  -- In a bitmap of bytes, `BITMAP_SET` sets the bit of one unit of four bytes and keeps all
  -- others.
  pub tst-set : bitmap_tst (bitmap_set b off) p ≡ (same_unit off p || bitmap_tst b p)
  unfolding bitmap_tst bitmap_set
  tst-set =
      ground (
        arith,
        set_row (off / 4 % 8) (p / 4 % 8) (b (p / 32)) (omega arith) (omega arith) (bytes _),
      )

  -- In a bitmap of bytes, `BITMAP_CLR` clears the bit of one unit of four bytes and keeps all
  -- others.
  pub tst-clr : bitmap_tst (bitmap_clr b off) p ≡ (not (same_unit off p) && bitmap_tst b p)
  unfolding bitmap_tst bitmap_clr
  tst-clr =
      ground (
        arith,
        clr_row (off / 4 % 8) (p / 4 % 8) (b (p / 32)) (omega arith) (omega arith) (bytes _),
      )

module _ (b : ℕ → ℕ) (bytes : IsBitmap b) (off : ℕ) where
  pub set-IsBitmap : IsBitmap (bitmap_set b off)
  unfolding bitmap_set
  set-IsBitmap i =
      ground (arith, byte_row (off / 4 % 8) 0 (b i) (omega arith) (omega arith) (bytes i), bytes i)

  pub clr-IsBitmap : IsBitmap (bitmap_clr b off)
  unfolding bitmap_clr
  clr-IsBitmap i =
      ground (arith, byte_row (off / 4 % 8) 0 (b i) (omega arith) (omega arith) (bytes i), bytes i)

pub tst-empty : (off : ℕ) → bitmap_tst (λ i. 0) off ≡ false
unfolding bitmap_tst
tst-empty off = ground (arith, bit_and-bitwise 0 (bit_mask off))
