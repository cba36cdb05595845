-- ===== src/Block.antt =====
-- Blocks: `block_len` and `BLOCK_ID_EQ` of lib/hivex.c, `IS_VALID_BLOCK` of lib/hivex-internal.h.
pub mod Laws
use hivex.Base.{ℕ, ◌+◌, ◌-◌, ◌%◌, ◌^◌, Bool, true, false, ◌&&◌, leb, ltb, ◌==◌, if◌then◌else◌}
use hivex.Hive.{Hive, Errno, einval, Read}
use hivex.Hive.Reader.{◌>>=◌, ◌>>◌, pure, require, asks}
use hivex.Hive.Bitmap.{bitmap_tst}
use hivex.Hive.Memory.{load8, load32}
use hivex.Layout.Block

-- `-len` of a negative `int32_t` as a `size_t`. The most negative number is its own negation, and
-- turns into 2^64 - 2^31.
unfoldable pub neg_size : ℕ → ℕ
neg_size w = if w == 2 ^ 31 then 2 ^ 64 - 2 ^ 31 else 2 ^ 32 - w

-- The length of the block, and whether it is used.
unfoldable pub block_len : ℕ → Read (ℕ × Bool)
block_len blkoff = do
  len ← load32 (blkoff + Block.seg_len)
  if ltb len (2 ^ 31) then pure (len, false) else pure (neg_size len, true)

-- `strncmp (block->id, "ab", 2) == 0`; the second byte is read only if the first one fits.
unfoldable pub block_id_eq : ℕ → ℕ → ℕ → Read Bool
block_id_eq offs a b = do
  x ← load8 (offs + Block.id)
  if x == a then (do y ← load8 (offs + Block.id + 1); pure (y == b)) else pure false

unfoldable pub is_valid_block : Hive → ℕ → Bool
is_valid_block h off = (off % 4 == 0) && leb 0x1000 off && ltb off h.size && bitmap_tst h.bitmap off

-- `IS_VALID_BLOCK (h, off) && BLOCK_ID_EQ (h, off, "ab")`
unfoldable pub is_block : ℕ → ℕ → ℕ → Read Bool
is_block off a b h = (if is_valid_block h off then block_id_eq off a b else pure false) h

-- The guard of most operations on nodes: `errno = EINVAL` unless this is an nk block.
unfoldable pub check_nk : ℕ → Read (Unit {0})
check_nk node = do nk ← is_block node b'n' b'k'; require nk einval

-- The guard of the operations on values.
unfoldable pub check_vk : ℕ → Read (Unit {0})
check_vk value = do vk ← is_block value b'v' b'k'; require vk einval

-- `if (!IS_VALID_BLOCK (h, off)) { errno = e; ... }`
unfoldable pub check_valid : ℕ → Errno → Read (Unit {0})
check_valid off e h = require (is_valid_block h off) e h
