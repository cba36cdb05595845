-- ===== src/Open/Ends.antt =====
-- `hivex_open` ends: its loops always make progress.
use hivex.Base.{
  ℕ, zero, suc, ◌+◌, ◌%◌, ◌^◌, ◌≤◌, ◌<◌, arith, Bool, true, false, ◌&&◌, List, [], ◌∷◌, ltb, ◌==◌,
  if◌then◌else◌, bit_xor, inl, inr, Bool-cases,
}
use hivex.Hive.{Hive, ok}
use hivex.Hive.Reader.{pure}
use hivex.Hive.Reader.Ends.{Ends, bind-Ends, require-Ends, load8-Ends, load32-Ends, load64-Ends}
use hivex.Block.{block_len, block_id_eq}
use hivex.Block.Laws.{block_len-eq-ok, block_len_bound}
use hivex.Header.{header_checksum, checksum_loop, magic_eq}
use hivex.Open.{
  Scan, no_blocks, scan_block, scan_blocks, check_page, scan_pages, check_header, read_blocks,
  FileImage, fresh_handle, hivex_open, from_offset32,
}
use hivex.Open.Blocks.{Scanned-intro}
use hivex.Open.Pages.{check_page_whole}

module _ (h : Hive) where
  block_len-Ends : (off : ℕ) → Ends (block_len off h)
  unfolding block_len
  block_len-Ends off = bind-Ends h _ _ (load32-Ends h _) λ w p. λ q. ground arith

  block_id_eq-Ends : (off a b : ℕ) → Ends (block_id_eq off a b h)
  unfolding block_id_eq
  block_id_eq-Ends off a b = bind-Ends h _ _ (load8-Ends h _) λ x p. elim (Bool-cases (x == a)) [
    | inl e ↦ rw e (bind-Ends h _ _ (load8-Ends h _) λ y r. λ q. ground arith)
    | inr e ↦ rw e (λ q. ground arith)
  ]

  magic_eq-Ends : (o : ℕ) (cs : List ℕ) → Ends (magic_eq o cs h)
  unfolding magic_eq
  magic_eq-Ends o [] = λ q. ground arith
  magic_eq-Ends o (c ∷ cs) = bind-Ends h _ _ (load8-Ends h _) λ x p. elim (Bool-cases (x == c)) [
    | inl e ↦ rw e (magic_eq-Ends (o + 1) cs)
    | inr e ↦ rw e (λ q. ground arith)
  ]

  checksum_loop-Ends : (n o sum : ℕ) → Ends (checksum_loop n o sum h)
  unfolding checksum_loop
  checksum_loop-Ends zero o sum = λ q. ground arith
  checksum_loop-Ends (suc n) o sum =
      bind-Ends h _ _ (load32-Ends h _) λ w p. checksum_loop-Ends n (o + 4) (bit_xor sum w)

  scan_block-Ends : (rootoffs blkoff : ℕ) (s : Scan) → Ends (scan_block rootoffs blkoff s h)
  unfolding scan_block
  scan_block-Ends rootoffs blkoff s = bind-Ends h _ _ (block_len-Ends blkoff) λ (seg_len, used) p.
      bind-Ends h _ _ (require-Ends h _ _)
        λ _ _. bind-Ends h _ _ (tested (used && (blkoff == rootoffs))) λ nk _. λ q. ground arith
    where
      tested : (b : Bool) → Ends ((if b then block_id_eq blkoff b'n' b'k' else pure true) h)
      tested true = block_id_eq-Ends blkoff b'n' b'k'
      tested false = λ q. ground arith

  scan_blocks-Ends :
      (fuel rootoffs end blkoff : ℕ) (s : Scan)
      → h.size ≤ 2 ^ 31
      → 0 < fuel
      → h.size < blkoff + fuel
      → Ends (scan_blocks fuel rootoffs end blkoff s h)
  unfolding scan_blocks
  scan_blocks-Ends zero rootoffs end blkoff s small pos enough = absurd (omega arith)
  scan_blocks-Ends (suc fuel) rootoffs end blkoff s small pos enough =
      elim (Bool-cases (ltb blkoff end)) [
        | inl more ↦ rw more (
            bind-Ends h _ _ (scan_block-Ends rootoffs blkoff s) λ (s', n) round.
              let r = Scanned-intro h rootoffs blkoff s s' n round in
              let (inside, _) = block_len-eq-ok blkoff h r.header in
              let bound = block_len_bound blkoff h r.header in
              let long = r.long in
              scan_blocks-Ends fuel rootoffs end ((blkoff + n) % 2 ^ 64) s' small (omega arith)
                (omega arith))
        | inr none_left ↦ rw none_left (λ q. ground arith)
      ]

  check_page-Ends : (off : ℕ) → Ends (check_page off h)
  unfolding check_page
  check_page-Ends off = bind-Ends h _ _ (magic_eq-Ends _ _) λ hbin _.
      bind-Ends h _ _ (require-Ends h _ _) λ _ _.
        bind-Ends h _ _ (load32-Ends h _)
          λ page_size _. bind-Ends h _ _ (require-Ends h _ _) λ _ _. λ q. ground arith

  scan_pages-Ends :
      (fuel rootoffs endpages off : ℕ) (s : Scan)
      → h.size ≤ 2 ^ 31
      → 0 < fuel
      → h.size < off + fuel
      → Ends (scan_pages fuel rootoffs endpages off s h)
  unfolding scan_pages
  scan_pages-Ends zero rootoffs endpages off s small pos enough = absurd (omega arith)
  scan_pages-Ends (suc fuel) rootoffs endpages off s small pos enough =
      elim (Bool-cases (ltb off h.size && ltb off endpages)) [
        | inl more ↦
            let below : off < h.size = ground (arith, more) in
            rw more (
              bind-Ends h _ _ (check_page-Ends off) λ page_size page.
                let (large, _) = check_page_whole off h page in
                bind-Ends h _ _
                  (scan_blocks-Ends (h.size + 1) rootoffs (off + page_size) (off + 0x20) s small
                    (omega arith) (omega arith))
                  λ s' _.
                    scan_pages-Ends fuel rootoffs endpages (off + page_size) s' small (omega arith)
                      (omega arith))
        | inr none_left ↦ rw none_left (λ q. ground arith)
      ]

  check_header-Ends : Ends (check_header h)
  unfolding check_header header_checksum
  check_header-Ends = bind-Ends h _ _ (magic_eq-Ends _ _) λ regf _.
      bind-Ends h _ _ (require-Ends h _ _) λ _ _. bind-Ends h _ _ (load32-Ends h _) λ major_ver _.
        bind-Ends h _ _ (require-Ends h _ _) λ _ _. bind-Ends h _ _ (require-Ends h _ _) λ _ _.
          bind-Ends h _ _ (checksum_loop-Ends _ _ _)
            λ sum _. bind-Ends h _ _ (load32-Ends h _) λ csum _. require-Ends h _ _

  read_blocks-Ends : h.size ≤ 2 ^ 31 → Ends (read_blocks h)
  unfolding read_blocks
  read_blocks-Ends small = bind-Ends h _ _ (load64-Ends h _) λ last_modified _.
      bind-Ends h _ _ (load32-Ends h _) λ offset _. bind-Ends h _ _ (load32-Ends h _) λ blocks _.
        bind-Ends h _ _
          (scan_pages-Ends (h.size + 1) (from_offset32 offset) (from_offset32 blocks) 0x1000
            no_blocks small (omega arith) (omega arith))
          λ s _.
            bind-Ends h _ _ (require-Ends h _ _)
              λ _ _. bind-Ends h _ _ (require-Ends h _ _) λ _ _. λ q. ground arith

-- On every file of at most 2 GB, whatever its bytes, the loops of `hivex_open` end: the fuel of the
-- model, one round more than the file has bytes, is enough.
pub hivex_open-Ends :
    (grants : ℕ → Bool) (writable : Bool) (f : FileImage)
    → f.size ≤ 2 ^ 31
    → Ends (hivex_open grants writable (ok f))
unfolding hivex_open fresh_handle
hivex_open-Ends grants writable f small =
    let h = fresh_handle grants writable f in
    bind-Ends h _ _ (check_header-Ends h) λ _ _. read_blocks-Ends h small
