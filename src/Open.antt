-- ===== src/Open.antt =====
-- `hivex_open` of lib/hivex.c: the checks of the header, and the walk over all pages and blocks that
-- notes the used blocks in the bitmap and looks for the root block.
pub mod Blocks
pub mod Pages
pub mod Sound
pub mod Ends
pub mod Flag
use hivex.Base.{
  ℕ, zero, suc, ◌+◌, ◌/◌, ◌%◌, ◌^◌, Bool, true, false, not, ◌&&◌, ◌||◌, List, [], ◌∷◌, leb, ltb,
  ◌==◌, if◌then◌else◌,
}
use hivex.Hive.{Hive, Errno, enotsup, einval, Trap, stuck, Result, ok, err, trap, Read}
use hivex.Hive.Reader.{◌>>=◌, ◌>>◌, pure, stop, require, malloc}
use hivex.Hive.Bitmap.{bitmap_set}
use hivex.Hive.Memory.{load32, load64}
use hivex.Layout.Header
use hivex.Layout.Page
use hivex.Block.{block_len, block_id_eq}
use hivex.Header.{header_checksum, magic_eq}

-- What the walk collects. (Its statistics are only printed.)
pub record Scan : Type 0 where
  pub bitmap : ℕ → ℕ
  pub seen_root : Bool
  pub bad_root : Bool

-- What is noted of one block; `nk` is the answer of the test of a used root block.
unfoldable pub note_block : ℕ → ℕ → Bool → Bool → Scan → Scan
note_block rootoffs blkoff used nk s =
    let is_root = blkoff == rootoffs in
    record {
      bitmap = if used then bitmap_set s.bitmap blkoff else s.bitmap;
      seen_root = s.seen_root || is_root;
      bad_root = s.bad_root || (is_root && not used) || not nk;
    }

-- The walk's body for one block: what is collected, and the length of the block.
unfoldable pub scan_block : ℕ → ℕ → Scan → Read (Scan × ℕ)
scan_block rootoffs blkoff s = do
  (seg_len, used) ← block_len blkoff
  require (ltb 4 seg_len && (seg_len % 4 == 0)) enotsup
  nk ← if used && (blkoff == rootoffs) then block_id_eq blkoff b'n' b'k' else pure true
  pure (note_block rootoffs blkoff used nk s, seg_len)

-- The blocks from `blkoff` up to `end`, the end of their page. The offset is a `size_t`, and wraps.
unfoldable pub scan_blocks : ℕ → ℕ → ℕ → ℕ → Scan → Read Scan
scan_blocks zero rootoffs end blkoff s = stop stuck
scan_blocks (suc fuel) rootoffs end blkoff s =
    if ltb blkoff end
    then (do
      (s', seg_len) ← scan_block rootoffs blkoff s
      scan_blocks fuel rootoffs end ((blkoff + seg_len) % 2 ^ 64) s')
    else pure s

-- The checks of one page, which return its size.
unfoldable pub check_page : ℕ → Read ℕ
check_page off = do
  hbin ← magic_eq (off + Page.magic) (b'h' ∷ b'b' ∷ b'i' ∷ b'n' ∷ [])
  require hbin enotsup
  page_size ← load32 (off + Page.page_size)
  require (ltb Page.sizeof page_size && (page_size % 0x1000 == 0)) enotsup
  pure page_size

-- The pages from `off` on.
unfoldable pub scan_pages : ℕ → ℕ → ℕ → ℕ → Scan → Read Scan
scan_pages zero rootoffs endpages off s h = trap stuck
scan_pages (suc fuel) rootoffs endpages off s h =
    (if ltb off h.size && ltb off endpages
        then (do
          page_size ← check_page off
          s' ← scan_blocks (h.size + 1) rootoffs (off + page_size) (off + 0x20) s
          scan_pages fuel rootoffs endpages (off + page_size) s')
        else pure s)
      h

-- `le32toh (x) + 0x1000` on a `uint32_t`.
unfoldable pub from_offset32 : ℕ → ℕ
from_offset32 x = (x + 0x1000) % 2 ^ 32

-- The checks of the header, up to the checksum.
unfoldable pub check_header : Read (Unit {0})
check_header h =
    (do
      regf ← magic_eq Header.magic (b'r' ∷ b'e' ∷ b'g' ∷ b'f' ∷ [])
      require regf enotsup
      major_ver ← load32 Header.major_ver
      require (major_ver == 1) enotsup
      malloc (1 + h.size / 32)
      sum ← header_checksum
      csum ← load32 Header.csum
      require (sum == csum) einval)
      h

abbrev pub no_blocks : Scan
no_blocks = record { bitmap = λ i. 0; seen_root = false; bad_root = false }

-- All that follows the header checks: the fields of the handle, the walk, and the root's checks.
unfoldable pub read_blocks : Read Hive
read_blocks h =
    (do
      last_modified ← load64 Header.last_modified
      offset ← load32 Header.offset
      blocks ← load32 Header.blocks
      let rootoffs = from_offset32 offset
      let endpages = from_offset32 blocks
      s ← scan_pages (h.size + 1) rootoffs endpages 0x1000 no_blocks
      require s.seen_root enotsup
      require (not s.bad_root) enotsup
      pure (record h {
        bitmap = s.bitmap;
        rootoffs = rootoffs;
        endpages = endpages;
        last_modified = last_modified;
      }))
      h

-- The bytes of a file.
pub record FileImage : Type 0 where
  pub size : ℕ
  pub bytes : ℕ → ℕ

-- The handle before anything of the file is looked at.
unfoldable pub fresh_handle : (ℕ → Bool) → Bool → FileImage → Hive
fresh_handle grants writable f = record {
  size = f.size;
  writable = writable;
  mem = f.bytes;
  bitmap = λ i. 0;
  rootoffs = 0;
  endpages = 0;
  last_modified = 0;
  endblocks = 0;
  grants = grants;
}

-- `file` is what opening, sizing, and mapping or reading the file gave.
unfoldable pub hivex_open : (ℕ → Bool) → Bool → Result FileImage → Result Hive
hivex_open grants writable (ok f) = (check_header >> read_blocks) (fresh_handle grants writable f)
hivex_open grants writable (err e) = err e
hivex_open grants writable (trap t) = trap t
