-- ===== src/Hive/Bytes.antt =====
-- Little-endian numbers and byte strings in an image, without bounds.
use hivex.Base.{
  ℕ, zero, suc, ◌+◌, ◌-◌, ◌*◌, ◌/◌, ◌%◌, ◌&&◌, List, [], ◌∷◌, leb, ltb, ◌==◌, if◌then◌else◌, length,
  get_or,
}

abbrev pub Image : Type 0
Image = ℕ → ℕ

unfoldable pub get16 : Image → ℕ → ℕ
get16 m o = m o + 256 * m (o + 1)

unfoldable pub get32 : Image → ℕ → ℕ
get32 m o = m o + 256 * m (o + 1) + 65536 * m (o + 2) + 16777216 * m (o + 3)

unfoldable pub get64 : Image → ℕ → ℕ
get64 m o = get32 m o + 4294967296 * get32 m (o + 4)

unfoldable pub put8 : Image → ℕ → ℕ → Image
put8 m o v i = if i == o then v % 256 else m i

unfoldable pub put16 : Image → ℕ → ℕ → Image
unfolding put8
put16 m o v = put8 (put8 m o v) (o + 1) (v / 256)

unfoldable pub put32 : Image → ℕ → ℕ → Image
unfolding put8
put32 m o v =
    put8 (put8 (put8 (put8 m o v) (o + 1) (v / 256)) (o + 2) (v / 65536)) (o + 3) (v / 16777216)

unfoldable pub put64 : Image → ℕ → ℕ → Image
unfolding put32
put64 m o v = put32 (put32 m o v) (o + 4) (v / 4294967296)

-- `memset (addr + o, v, n)`
unfoldable pub fill : Image → ℕ → ℕ → ℕ → Image
fill m o n v i = if leb o i && ltb i (o + n) then v % 256 else m i

-- `memcpy` of a byte string into the image, and out of it.
unfoldable pub put_bytes : Image → ℕ → List ℕ → Image
put_bytes m o xs i = if leb o i && ltb i (o + length xs) then get_or xs (i - o) 0 else m i

unfoldable pub get_bytes : Image → ℕ → ℕ → List ℕ
get_bytes m o zero = []
get_bytes m o (suc n) = m o ∷ get_bytes m (o + 1) n
