-- ===== src/Alloc.antt =====
-- `allocate_page`, `allocate_block` and `mark_block_unused` of lib/hivex.c.
pub mod Laws
pub mod Room
pub mod Sound
pub mod Unused
use hivex.Base.{
  ℕ, ◌+◌, ◌-◌, ◌*◌, ◌/◌, ◌%◌, ◌^◌, Bool, true, false, not, ◌&&◌, ◌||◌, List, [], ◌∷◌, leb, ltb,
  ◌==◌, if◌then◌else◌,
}
use hivex.Hive.{Hive, Errno, erofs, erange, Trap, dangling, Cmd}
use hivex.Hive.Writer.{◌>>=◌, ◌>>◌, pure, stop, require, assert, malloc, get, asks, modify}
use hivex.Hive.Bytes.{fill}
use hivex.Hive.Bitmap.{bitmap_set, bitmap_clr}
use hivex.Hive.Memory.{less_header, store8, store32, memset, store_bytes}
use hivex.Layout.{hivex_max_allocation}
use hivex.Layout.Page
use hivex.Layout.Block
use hivex.Block.{block_len, is_valid_block}

unfoldable pub nr_4k_pages : ℕ → ℕ
nr_4k_pages allocation_hint = 1 + (allocation_hint + Page.sizeof - 1) / 4096

-- `realloc` of the image and the bitmap to the new size. If only the second fails, the image has
-- been freed and the handle still points to it.
unfoldable pub extend_image : ℕ → Cmd (Unit {0})
extend_image newsize = do
  malloc newsize
  granted ← asks (λ h. h.grants (1 + newsize / 32))
  if granted then pure tt else stop dangling
  modify (λ h. record h {
    size = newsize;
    mem = fill h.mem h.size (newsize - h.size) 0;
    bitmap = fill h.bitmap (1 + h.size / 32) (1 + newsize / 32 - (1 + h.size / 32)) 0;
  })

unfoldable pub write_page_header : ℕ → ℕ → Cmd (Unit {0})
write_page_header offset page_size = do
  store_bytes (offset + Page.magic) (b'h' ∷ b'b' ∷ b'i' ∷ b'n' ∷ [])
  store32 (offset + Page.offset_first) (less_header offset)
  store32 (offset + Page.page_size) page_size
  memset (offset + Page.unknown) 0 20

-- Returns the offset of the first usable byte of the new page.
unfoldable pub allocate_page : ℕ → Cmd ℕ
allocate_page allocation_hint h =
    (do
      let page_size = nr_4k_pages allocation_hint * 4096
      let offset = h.endpages
      if ltb h.size (offset + page_size) then extend_image (offset + page_size) else pure tt
      modify (λ h. record h { endpages = offset + page_size })
      write_page_header offset page_size
      pure (offset + Page.sizeof))
      h

-- The header of the new block at `offset`, and its bit.
unfoldable pub write_block_header : ℕ → ℕ → ℕ → ℕ → Cmd (Unit {0})
write_block_header offset seg_len id0 id1 = do
  memset offset 0 seg_len
  store32 (offset + Block.seg_len) (2 ^ 32 - seg_len)
  if not (id0 == 0) && not (id1 == 0) && leb Block.sizeof seg_len
      then (do store8 (offset + Block.id) id0; store8 (offset + Block.id + 1) id1)
      else pure tt
  modify (λ h. record h { bitmap = bitmap_set h.bitmap offset })

-- The header of a free block over what is left of the last page.
unfoldable pub mark_remainder : Cmd (Unit {0})
mark_remainder h =
    (if ltb h.endblocks h.endpages
        then (do
          assert (leb 4 (h.endpages - h.endblocks))
          store32 (h.endblocks + Block.seg_len) (h.endpages - h.endblocks))
        else pure tt)
      h

-- A new page, unless the last one has `seg_len` bytes to spare.
unfoldable pub ensure_room : ℕ → Cmd (Unit {0})
ensure_room seg_len h =
    (if h.endblocks == 0 || ltb h.endpages (h.endblocks + seg_len)
        then (do
          newendblocks ← allocate_page seg_len
          modify (λ h. record h { endblocks = newendblocks }))
        else pure tt)
      h

-- `(seg_len + 7) & ~7`
unfoldable pub round_up : ℕ → ℕ
round_up seg_len = (seg_len + 7) / 8 * 8

unfoldable pub allocate_block : ℕ → ℕ → ℕ → Cmd ℕ
allocate_block seg_len id0 id1 = do
  writable ← asks (λ h. h.writable)
  require writable erofs
  require (leb 4 seg_len) erange
  require (leb seg_len hivex_max_allocation) erange
  ensure_room (round_up seg_len)
  offset ← asks (λ h. h.endblocks)
  write_block_header offset (round_up seg_len) id0 id1
  modify (λ h. record h { endblocks = offset + round_up seg_len })
  mark_remainder
  pure offset

unfoldable pub mark_block_unused : ℕ → Cmd (Unit {0})
mark_block_unused offset = do
  writable ← asks (λ h. h.writable)
  assert writable
  valid ← asks (λ h. is_valid_block h offset)
  assert valid
  (seg_len, used) ← get (block_len offset)
  store32 (offset + Block.seg_len) seg_len
  modify (λ h. record h { bitmap = bitmap_clr h.bitmap offset })
