-- ===== src/Open/Blocks.antt =====
-- The walk over the blocks of a page keeps what the bitmap means.
use hivex.Base.{
  ℕ, zero, suc, ◌+◌, ◌%◌, ◌^◌, ◌≤◌, ◌<◌, ◌≡◌, arith, Bool, true, false, ◌&&◌, inl, inr, ltb, ◌==◌,
  Bool-cases, ap, ◌∙◌,
}
use hivex.Hive.{Hive, ok}
use hivex.Hive.Reader.Laws.{after, after_require}
use hivex.Hive.Bitmap.{bitmap_set, bitmap_tst}
use hivex.Hive.Bitmap.Laws.{IsBitmap, same_unit, tst-set, set-IsBitmap}
use hivex.Block.{block_len, block_id_eq}
use hivex.Block.Laws.{block_len-eq-ok, block_len_bound}
use hivex.Open.{Scan, note_block, scan_block, scan_blocks}

-- A used block stands at this offset of the image, with an acceptable length.
pub record IsUsedBlock (h : Hive) (off : ℕ) : Type 0 where
  pub len : ℕ
  pub used : block_len off h ≡ ok (len, true)
  pub long : 4 < len
  pub whole : len % 4 ≡ 0
  pub behind_header : 0x1020 ≤ off

-- What is collected is true of the image.
pub record IsScan (h : Hive) (rootoffs : ℕ) (s : Scan) : Type 0 where
  pub bytes : IsBitmap s.bitmap
  pub blocks : (p : ℕ) → p % 4 ≡ 0 → bitmap_tst s.bitmap p ≡ true → IsUsedBlock h p
  pub root :
      s.seen_root ≡ true
      → s.bad_root ≡ false
      → (rootoffs % 4 ≡ 0)
        × (bitmap_tst s.bitmap rootoffs ≡ true)
        × (block_id_eq rootoffs b'n' b'k' h ≡ ok true)

-- A successful round, taken apart.
pub record Scanned (h : Hive) (rootoffs blkoff : ℕ) (s s' : Scan) (n : ℕ) : Type 0 where
  pub used : Bool
  pub nk : Bool
  pub header : block_len blkoff h ≡ ok (n, used)
  pub long : 4 < n
  pub whole : n % 4 ≡ 0
  pub root_id : (used && (blkoff == rootoffs)) ≡ true → block_id_eq blkoff b'n' b'k' h ≡ ok nk
  pub noted : s' ≡ note_block rootoffs blkoff used nk s

pub Scanned-intro :
    (h : Hive) (rootoffs blkoff : ℕ) (s s' : Scan) (n : ℕ)
    → scan_block rootoffs blkoff s h ≡ ok (s', n)
    → Scanned h rootoffs blkoff s s' n
unfolding scan_block
Scanned-intro h rootoffs blkoff s s' n e =
    after h (block_len blkoff) _ e λ (seg_len, used) header e1. after_require h _ _ _ e1 λ shape e2.
      after h _ _ e2 λ nk tested e3. record {
        used = used;
        nk = nk;
        header = ground (arith, header, e3);
        long = ground (arith, shape, e3);
        whole = ground (arith, shape, e3);
        root_id = ground (arith, tested);
        noted = ground (arith, e3);
      }

-- A used block at `b` that is added to the bitmap.
set-IsUsedBlock :
    (h : Hive) (rootoffs b : ℕ) (s : Scan)
    → b % 4 ≡ 0
    → IsScan h rootoffs s
    → IsUsedBlock h b
    → (p : ℕ) → p % 4 ≡ 0
    → bitmap_tst (bitmap_set s.bitmap b) p ≡ true
    → IsUsedBlock h p
set-IsUsedBlock h rootoffs b s aligned is new p ap tp = elim (Bool-cases (same_unit b p)) [
  | inl here ↦ let same : p ≡ b = ground (arith, here) in rw same new
  | inr there ↦ is.blocks p ap (ground (arith, tst-set s.bitmap is.bytes b p))
]

note_block-IsScan :
    (h : Hive) (rootoffs b : ℕ) (s : Scan) (n : ℕ) (used nk : Bool)
    → 0x1020 ≤ b
    → b % 4 ≡ 0
    → IsScan h rootoffs s
    → block_len b h ≡ ok (n, used)
    → 4 < n
    → n % 4 ≡ 0
    → ((used && (b == rootoffs)) ≡ true → block_id_eq b b'n' b'k' h ≡ ok nk)
    → IsScan h rootoffs (note_block rootoffs b used nk s)
unfolding note_block
note_block-IsScan h rootoffs b s n true nk low aligned is header long whole root_id = record {
  bytes = set-IsBitmap s.bitmap is.bytes b;
  blocks =
      set-IsUsedBlock h rootoffs b s aligned is
        (record { len = n; used = header; long = long; whole = whole; behind_header = low });
  root = λ seen good. elim (Bool-cases (b == rootoffs)) [
    | inl here ↦
        let same : rootoffs ≡ b = ground (arith, here) in
        let is_nk : nk ≡ true = ground (arith, good) in
        (
          ground arith,
          ground (arith, tst-set s.bitmap is.bytes b rootoffs),
          rw same (root_id (ground arith) ∙ ap ok is_nk),
        )
    | inr there ↦
        let (a, t, i) = is.root (ground (arith, seen)) (ground (arith, good)) in
        (a, ground (arith, tst-set s.bitmap is.bytes b rootoffs), i)
  ];
}
note_block-IsScan h rootoffs b s n false nk low aligned is header long whole root_id = record {
  bytes = is.bytes;
  blocks = is.blocks;
  root = λ seen good. is.root (ground (arith, seen, good)) (ground (arith, good));
}

pub scan_blocks-IsScan :
    (fuel : ℕ) (h : Hive) (rootoffs end blkoff : ℕ) (s s' : Scan)
    → h.size ≤ 2 ^ 31
    → 0x1020 ≤ blkoff
    → blkoff % 4 ≡ 0
    → IsScan h rootoffs s
    → scan_blocks fuel rootoffs end blkoff s h ≡ ok s'
    → IsScan h rootoffs s'
unfolding scan_blocks
scan_blocks-IsScan zero h rootoffs end blkoff s s' small low aligned is e = ground arith
scan_blocks-IsScan (suc fuel) h rootoffs end blkoff s s' small low aligned is e =
    elim (Bool-cases (ltb blkoff end)) [
      | inl more ↦ after h _ _ (rw more at e) λ (s₁, n) round e1.
          let r = Scanned-intro h rootoffs blkoff s s₁ n round in
          let is₁ : IsScan h rootoffs s₁ = rw r.noted (
            note_block-IsScan h rootoffs blkoff s n r.used r.nk low aligned is r.header r.long
              r.whole r.root_id) in
          let (inside, _) = block_len-eq-ok blkoff h r.header in
          scan_blocks-IsScan fuel h rootoffs end ((blkoff + n) % 2 ^ 64) s₁ s' small
            (omega (arith, block_len_bound blkoff h r.header)) (omega (arith, r.whole)) is₁ e1
      | inr none_left ↦ let same : s ≡ s' = ground (arith, rw none_left at e) in rw (← same) is
    ]
