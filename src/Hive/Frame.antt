-- ===== src/Hive/Frame.antt =====
-- What is read back after a write into an image: the number written, or what stood there before.
use hivex.Base.{ℕ, ◌+◌, ◌%◌, ◌^◌, ◌≤◌, ◌<◌, ◌≡◌, arith, ◌⊎◌, List, length}
use hivex.Hive.Bytes.{Image, get16, get32, put8, put16, put32, fill, put_bytes}

abbrev pub IsImage : Image → Type 0
IsImage m = (i : ℕ) → m i < 256

-- The images agree on the `n` bytes from `o` on.
abbrev pub SameFrom : Image → Image → ℕ → ℕ → Type 0
SameFrom m m' o n = (i : ℕ) → o ≤ i → i < o + n → m' i ≡ m i

-- The ranges of `n` bytes at `o` and of `k` bytes at `p` have no byte in common.
abbrev pub Apart : ℕ → ℕ → ℕ → ℕ → Type 0
Apart o n p k = (o + n ≤ p) ⊎ (p + k ≤ o)

module _ (m m' : Image) (o : ℕ) where
  pub get16_same : SameFrom m m' o 2 → get16 m' o ≡ get16 m o
  unfolding get16
  get16_same h = ground (arith, h o, h (o + 1))

  pub get32_same : SameFrom m m' o 4 → get32 m' o ≡ get32 m o
  unfolding get32
  get32_same h = ground (arith, h o, h (o + 1), h (o + 2), h (o + 3))

module _ (m : Image) (o v : ℕ) where
  pub put8_frame : (i : ℕ) → Apart o 1 i 1 → put8 m o v i ≡ m i
  unfolding put8
  put8_frame i h = ground arith

  pub put16_frame : (i : ℕ) → Apart o 2 i 1 → put16 m o v i ≡ m i
  unfolding put16
  put16_frame i h = ground arith

  pub put32_frame : (i : ℕ) → Apart o 4 i 1 → put32 m o v i ≡ m i
  unfolding put32
  put32_frame i h = ground arith

  pub get16-put16 : get16 (put16 m o v) o ≡ v % 2 ^ 16
  unfolding get16 put16
  get16-put16 = ground arith

  pub get32-put32 : get32 (put32 m o v) o ≡ v % 2 ^ 32
  unfolding get32 put32
  get32-put32 = ground arith

  pub put16-IsImage : IsImage m → IsImage (put16 m o v)
  unfolding put16
  put16-IsImage h i = ground (arith, h i)

  pub put32-IsImage : IsImage m → IsImage (put32 m o v)
  unfolding put32
  put32-IsImage h i = ground (arith, h i)

module _ (m : Image) (o n v : ℕ) where
  pub fill_frame : (i : ℕ) → Apart o n i 1 → fill m o n v i ≡ m i
  unfolding fill
  fill_frame i h = ground arith

  pub fill-IsImage : IsImage m → IsImage (fill m o n v)
  unfolding fill
  fill-IsImage h i = ground (arith, h i)

pub get32-lt : (m : Image) (o : ℕ) → IsImage m → get32 m o < 2 ^ 32
unfolding get32
get32-lt m o h = omega (arith, h o, h (o + 1), h (o + 2), h (o + 3))

pub put_bytes_frame :
    (m : Image) (o : ℕ) (xs : List ℕ) (i : ℕ) → Apart o (length xs) i 1 → put_bytes m o xs i ≡ m i
unfolding put_bytes
put_bytes_frame m o xs i h = ground arith
