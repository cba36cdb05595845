-- ===== src/Alloc/Unused.antt =====
-- What `mark_block_unused` does.
use hivex.Base.{ℕ, ◌+◌, ◌^◌, ◌≤◌, ◌<◌, ◌≡◌, ◌≢◌, ◌⊎◌, refl, arith, true, false, ◌∙◌, ap}
use hivex.Hive.{Hive, ok}
use hivex.Hive.Writer.Laws.{Returns, returns, next, assert_done, get_done, write_done}
use hivex.Hive.Bytes.{get32, put32}
use hivex.Hive.Frame.{put32_frame, get32-put32}
use hivex.Hive.Bitmap.{bitmap_clr}
use hivex.Hive.Bitmap.Laws.{IsBitmap, tst-clr}
use hivex.Hive.Memory.{store32}
use hivex.Layout.Block
use hivex.Block.{block_len, is_valid_block}
use hivex.Block.Laws.{seg_of, block_len_ok, block_len-eq-ok, is_valid_block_iff}
use hivex.Alloc.{mark_block_unused}

-- The block of `len` bytes at `o` has become free, and all else is as before.
pub record IsFreed (o len : ℕ) (h h' : Hive) : Type 0 where
  pub length_kept : block_len o h' ≡ ok (len, false)
  pub invalid : is_valid_block h' o ≡ false
  pub others_valid : (p : ℕ) → p ≢ o → is_valid_block h' p ≡ is_valid_block h p
  pub bytes_kept : (i : ℕ) → (i < o) ⊎ (o + 4 ≤ i) → h'.mem i ≡ h.mem i
  pub size_kept : h'.size ≡ h.size

abbrev without : ℕ → ℕ → Hive → Hive
without o len h = record h {
  mem = put32 h.mem (o + Block.seg_len) len;
  bitmap = bitmap_clr h.bitmap o;
}

module _ (h : Hive) (o len : ℕ) (bytes : IsBitmap h.bitmap)
    (valid : is_valid_block h o ≡ true) where
  without_invalid : is_valid_block (without o len h) o ≡ false
  unfolding is_valid_block
  without_invalid = ground (arith, tst-clr h.bitmap bytes o o)

  without_others : (p : ℕ) → p ≢ o → is_valid_block (without o len h) p ≡ is_valid_block h p
  unfolding is_valid_block
  without_others p other = ground (arith, tst-clr h.bitmap bytes o p, is_valid_block_iff o h valid)

seg_of_small : (w : ℕ) → w < 2 ^ 31 → seg_of w ≡ (w, false)
unfolding seg_of
seg_of_small w small = ground arith

without_length :
    (h : Hive) (o len : ℕ)
    → o + 4 ≤ h.size
    → len < 2 ^ 31
    → block_len o (without o len h) ≡ ok (len, false)
without_length h o len inside small =
    let here : o + Block.seg_len ≡ o = omega arith in
    let stored : get32 (put32 h.mem (o + Block.seg_len) len) o ≡ len =
      rw here (get32-put32 h.mem o len ∙ omega arith) in
    block_len_ok o (without o len h) inside
    ∙ ap (λ w. ok (seg_of w)) stored
    ∙ ap ok (seg_of_small len small)

-- On a writable handle whose bitmap holds bytes, `mark_block_unused` turns the header of a valid
-- used block of less than 2^31 bytes into that of a free block of the same length. The block is
-- no longer valid, every other offset is as valid as it was, and no other byte of the image
-- changes.
pub mark_block_unused-IsFreed :
    (h : Hive) (o len : ℕ)
    → h.writable ≡ true
    → IsBitmap h.bitmap
    → is_valid_block h o ≡ true
    → block_len o h ≡ ok (len, true)
    → len < 2 ^ 31
    → Returns (λ u h'. IsFreed o len h h') (mark_block_unused o h)
unfolding mark_block_unused store32
mark_block_unused-IsFreed h o len w bytes valid seg small =
    let (inside, _) = block_len-eq-ok o h seg in
    next h _ _ refl (
      next h _ _ (assert_done h h.writable w) (
        next h _ _ refl (
          next h _ _ (assert_done h _ valid) (
            next h _ _ (get_done h _ seg) (
              next h _ _ (write_done h (o + Block.seg_len) 4 _ w (omega arith)) (
                returns (record {
                  length_kept = without_length h o len inside small;
                  invalid = without_invalid h o len bytes valid;
                  others_valid = without_others h o len bytes valid;
                  bytes_kept = λ i apart. put32_frame h.mem (o + Block.seg_len) len i (omega arith);
                  size_kept = refl;
                })))))))
