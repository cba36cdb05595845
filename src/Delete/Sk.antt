-- ===== src/Delete/Sk.antt =====
-- What `delete_sk` does to a security record that is referred to.
use hivex.Base.{
  ℕ, ◌+◌, ◌-◌, ◌^◌, ◌≤◌, ◌<◌, ◌≡◌, refl, arith, Bool, true, false, not, ◌&&◌, ◌==◌, if◌then◌else◌,
  inr, ap, ◌∙◌, sym,
}
use hivex.Hive.{Hive, ok, efault, einval}
use hivex.Hive.Writer.{pure}
use hivex.Hive.Writer.Laws.{Returns, returns, mono, next, require_done, get_done, write_done}
use hivex.Hive.Bytes.{get32, put32}
use hivex.Hive.Frame.{Apart, put32_frame, get32-put32, get32_same}
use hivex.Hive.Bitmap.Laws.{IsBitmap}
use hivex.Hive.Memory.{store32}
use hivex.Hive.Memory.Laws.{load32_ok}
use hivex.Layout.Sk
use hivex.Block.{block_len, is_valid_block}
use hivex.Block.Laws.{IsBlock, is_block_ok, block_len_ok, block_len-eq-ok, seg_of}
use hivex.Alloc.Unused.{IsFreed, mark_block_unused-IsFreed}
use hivex.Delete.{unlink_sk, delete_sk}

-- The handle with the count one lower.
abbrev pub released : ℕ → ℕ → Hive → Hive
released o n h = record h { mem = put32 h.mem (o + Sk.refcount) (n - 1) }

-- Neither link of the record leads back to itself.
abbrev pub is_linked : ℕ → Hive → Bool
is_linked o g =
    not (get32 g.mem (o + Sk.sk_prev) + 0x1000 == o)
    && not (get32 g.mem (o + Sk.sk_next) + 0x1000 == o)

-- A record with other references keeps its block; the last reference takes the block with it.
pub data IsReleased (o n len : ℕ) (h h' : Hive) : Type 0 where
  still_used :
      get32 h'.mem (o + Sk.refcount) ≡ n - 1
      → is_valid_block h' o ≡ true
      → ((i : ℕ) → Apart (o + Sk.refcount) 4 i 1 → h'.mem i ≡ h.mem i)
      → 2 ≤ n
      → IsReleased o n len h h'
  freed :
      n ≡ 1
      → get32 (released o n h).mem (o + Sk.refcount) ≡ 0
      → IsFreed o len (released o n h) h'
      → IsReleased o n len h h'

module _ (h : Hive) (o n len : ℕ) (w : h.writable ≡ true) (bytes : IsBitmap h.bitmap)
    (sk : IsBlock h o b's' b'k') (seg : block_len o h ≡ ok (len, true)) (small : len < 2 ^ 31)
    (inside : o + Sk.sizeof ≤ h.size) where
  released_valid : is_valid_block (released o n h) o ≡ true
  unfolding is_valid_block
  released_valid = sk.valid

  released_length : block_len o (released o n h) ≡ ok (len, true)
  released_length =
      let (room, word) = block_len-eq-ok o h seg in
      block_len_ok o (released o n h) room
      ∙ ap (λ v. ok (seg_of v))
          (get32_same h.mem (released o n h).mem o
            (λ i a b. put32_frame h.mem (o + Sk.refcount) (n - 1) i (inr (omega arith))))
      ∙ ap ok (sym word)

  unlink_sk-IsFreed :
      is_linked o (released o n h) ≡ false
      → Returns (λ u h'. IsFreed o len (released o n h) h') (unlink_sk o (released o n h))
  unfolding unlink_sk
  unlink_sk-IsFreed alone =
      let g = released o n h in
      next g _ _ (get_done g _ (load32_ok (o + Sk.sk_prev) g (omega arith))) (
        next g _ _ (get_done g _ (load32_ok (o + Sk.sk_next) g (omega arith))) (
          next g _ _ (rw alone refl)
            (mark_block_unused-IsFreed g o len w bytes released_valid released_length small)))

  link_kept :
      (field : ℕ)
      → field + 4 ≤ Sk.refcount
      → get32 (released o n h).mem (o + field) ≡ get32 h.mem (o + field)
  link_kept field low =
      get32_same h.mem (released o n h).mem (o + field)
        (λ i a b. put32_frame h.mem (o + Sk.refcount) (n - 1) i (inr (omega arith)))

  links_kept : is_linked o (released o n h) ≡ is_linked o h
  links_kept = rw (link_kept Sk.sk_prev (omega arith), link_kept Sk.sk_next (omega arith)) refl

-- Let a writable handle, whose bitmap holds bytes, have a used security record inside the image,
-- of less than 2^31 bytes, with `n` references, one at least; if it is just one, let a link of
-- the record lead back to itself, as in a list of one. Then `delete_sk` succeeds. With more
-- references the count goes down by one, the block stays valid and no other byte changes; with
-- one, the count is 0 and the block is free.
pub delete_sk-IsReleased :
    (h : Hive) (o n len : ℕ)
    → h.writable ≡ true
    → IsBitmap h.bitmap
    → IsBlock h o b's' b'k'
    → block_len o h ≡ ok (len, true)
    → len < 2 ^ 31
    → o + Sk.sizeof ≤ h.size
    → get32 h.mem (o + Sk.refcount) ≡ n
    → 1 ≤ n
    → n < 2 ^ 32
    → (n ≡ 1 → is_linked o h ≡ false)
    → Returns (λ u h'. IsReleased o n len h h') (delete_sk o h)
unfolding delete_sk store32
delete_sk-IsReleased h o n len w bytes sk seg small inside count low high alone =
    next h _ _ (get_done h _ (is_block_ok h o b's' b'k' sk)) (
      next h _ _ (require_done h true efault refl) (
        next h _ _ (get_done h _ (load32_ok (o + Sk.refcount) h (omega arith) ∙ ap ok count)) (
          next h _ _ (require_done h (not (n == 0)) einval (ground arith)) (
            next h _ _ (write_done h (o + Sk.refcount) 4 _ w (omega arith))
              (last (n - 1 == 0) refl)))))
  where
    last :
        (b : Bool)
        → (n - 1 == 0) ≡ b
        → Returns
            (λ u h'. IsReleased o n len h h')
            ((if b then unlink_sk o else pure tt) (released o n h))
    last true e =
        let one : n ≡ 1 = ground arith in
        mono
          (unlink_sk-IsFreed h o n len w bytes sk seg small inside
            (links_kept h o n len w bytes sk seg small inside ∙ alone one))
          λ u h' f. freed one (get32-put32 h.mem (o + Sk.refcount) (n - 1) ∙ omega arith) f
    last false e = returns (
        still_used (get32-put32 h.mem (o + Sk.refcount) (n - 1) ∙ omega arith)
          (released_valid h o n len w bytes sk seg small inside)
          (λ i apart. put32_frame h.mem (o + Sk.refcount) (n - 1) i apart) (ground arith))
