-- ===== src/Block/Laws.antt =====
-- What a successful `block_len` says, and when a block is valid.
use hivex.Base.{
  ℕ, ◌+◌, ◌-◌, ◌%◌, ◌^◌, ◌≤◌, ◌<◌, ◌≡◌, refl, ap, ◌∙◌, arith, Bool, true, false, ltb, if◌then◌else◌,
}
use hivex.Hive.{Hive, Errno, ok}
use hivex.Hive.Reader.{◌>>=◌, require}
use hivex.Hive.Reader.Laws.{after, step, require-eq-ok}
use hivex.Hive.Bytes.{get32}
use hivex.Hive.Memory.{load32}
use hivex.Hive.Bitmap.{bitmap_tst}
use hivex.Block.{
  neg_size, block_len, block_id_eq, is_valid_block, is_block, check_nk, check_vk, check_valid,
}

-- The raw word of a block header, read: its length and whether it is used.
unfoldable pub seg_of : ℕ → ℕ × Bool
unfolding neg_size
seg_of w = if ltb w (2 ^ 31) then (w, false) else (neg_size w, true)

module _ (off : ℕ) (h : Hive) where
  pub block_len_ok : off + 4 ≤ h.size → block_len off h ≡ ok (seg_of (get32 h.mem off))
  unfolding block_len seg_of load32 ◌>>=◌
  block_len_ok p = ground arith

  pub block_len-eq-ok :
      {r : ℕ × Bool} → block_len off h ≡ ok r → (off + 4 ≤ h.size) × (r ≡ seg_of (get32 h.mem off))
  unfolding block_len seg_of load32 ◌>>=◌
  block_len-eq-ok e = ground arith

  pub is_valid_block_iff :
      is_valid_block h off ≡ true
      → (off % 4 ≡ 0) × (0x1000 ≤ off) × (off < h.size) × (bitmap_tst h.bitmap off ≡ true)
  unfolding is_valid_block
  is_valid_block_iff e = ground arith

  pub is_valid_block_intro :
      off % 4 ≡ 0
      → 0x1000 ≤ off
      → off < h.size
      → bitmap_tst h.bitmap off ≡ true
      → is_valid_block h off ≡ true
  unfolding is_valid_block
  is_valid_block_intro a b c d = ground arith

  pub block_len_bound : {n : ℕ} {u : Bool} → block_len off h ≡ ok (n, u) → n ≤ 2 ^ 64 - 2 ^ 31
  unfolding seg_of neg_size
  block_len_bound e = ground (arith, block_len-eq-ok e)

-- `IS_VALID_BLOCK (h, off) && BLOCK_ID_EQ (h, off, "ab")` holds.
pub record IsBlock (h : Hive) (off a b : ℕ) : Type 0 where
  pub valid : is_valid_block h off ≡ true
  pub id : block_id_eq off a b h ≡ ok true

module _ (h : Hive) (off : ℕ) where
  pub check_valid_ok : (e : Errno) → is_valid_block h off ≡ true → check_valid off e h ≡ ok tt
  unfolding check_valid require
  check_valid_ok e p = rw p

  pub check_valid-eq-ok :
      (e : Errno) {u : Unit {0}} → check_valid off e h ≡ ok u → is_valid_block h off ≡ true
  unfolding check_valid
  check_valid-eq-ok e p = require-eq-ok h _ e p

  pub is_block-eq-true : (a b : ℕ) → is_block off a b h ≡ ok true → IsBlock h off a b
  unfolding is_block
  is_block-eq-true a b p = ground arith

  pub is_block_ok : (a b : ℕ) → IsBlock h off a b → is_block off a b h ≡ ok true
  unfolding is_block
  is_block_ok a b p = rw p.valid p.id

  pub check_nk-eq-ok : {u : Unit {0}} → check_nk off h ≡ ok u → IsBlock h off b'n' b'k'
  unfolding check_nk
  check_nk-eq-ok e =
      after h _ _ e λ nk test e1. is_block-eq-true b'n' b'k' (test ∙ ap ok (require-eq-ok h _ _ e1))

  pub check_nk_ok : IsBlock h off b'n' b'k' → check_nk off h ≡ ok tt
  unfolding check_nk require
  check_nk_ok p = step h _ _ (is_block_ok b'n' b'k' p) refl

  pub check_vk-eq-ok : {u : Unit {0}} → check_vk off h ≡ ok u → IsBlock h off b'v' b'k'
  unfolding check_vk
  check_vk-eq-ok e =
      after h _ _ e λ vk test e1. is_block-eq-true b'v' b'k' (test ∙ ap ok (require-eq-ok h _ _ e1))

  pub check_vk_ok : IsBlock h off b'v' b'k' → check_vk off h ≡ ok tt
  unfolding check_vk require
  check_vk_ok p = step h _ _ (is_block_ok b'v' b'k' p) refl
