-- ===== src/Open/Sound.antt =====
-- What a successful `hivex_open` guarantees.
use hivex.Base.{ℕ, ◌+◌, ◌%◌, ◌^◌, ◌≤◌, ◌≡◌, refl, arith, Bool, true, false, ◌==◌, sym, ap, ◌∙◌}
use hivex.Hive.{Hive, no_key, ok}
use hivex.Hive.Reader.{◌>>=◌}
use hivex.Hive.Reader.Laws.{after, after_require, require-eq-ok, ok-injective, step}
use hivex.Hive.Bytes.{get32}
use hivex.Hive.Bitmap.{bitmap_tst}
use hivex.Hive.Bitmap.Laws.{tst-empty}
use hivex.Hive.Memory.{load8, load32}
use hivex.Hive.Memory.Laws.{load32-eq-ok}
use hivex.Layout.Header
use hivex.Block.{block_len, block_id_eq, is_valid_block}
use hivex.Block.Laws.{block_len-eq-ok, is_valid_block_iff, is_valid_block_intro, check_valid_ok}
use hivex.Header.{header_checksum}
use hivex.Header.Laws.{xor_words, checksum_loop-eq-ok, FourBytes, magic_eq-FourBytes}
use hivex.Node.{hivex_root}
use hivex.Open.{
  Scan, no_blocks, check_header, read_blocks, FileImage, fresh_handle, hivex_open, from_offset32,
}
use hivex.Open.Blocks.{IsUsedBlock, IsScan}
use hivex.Open.Pages.{scan_pages-IsScan}

no_blocks-IsScan : (h : Hive) (rootoffs : ℕ) → IsScan h rootoffs no_blocks
no_blocks-IsScan h rootoffs = record {
  bytes = λ i. omega arith;
  blocks = λ p ap tp. cc (tst-empty p);
  root = λ seen good. ground arith;
}

-- The handle of an opened file.
pub record IsOpened (f : FileImage) (h : Hive) : Type 0 where
  pub image : h.mem ≡ f.bytes
  pub size : h.size ≡ f.size
  pub magic : FourBytes f.bytes 0 b'r' b'e' b'g' b'f'
  pub version : get32 f.bytes Header.major_ver ≡ 1
  pub checksum : xor_words f.bytes 127 0 0 ≡ get32 f.bytes Header.csum
  pub blocks : (p : ℕ) → is_valid_block h p ≡ true → IsUsedBlock h p
  pub root : hivex_root h ≡ ok h.rootoffs
  pub root_id : block_id_eq h.rootoffs b'n' b'k' h ≡ ok true

check_header_lem :
    (h : Hive) {u : Unit {0}}
    → check_header h ≡ ok u
    → FourBytes h.mem 0 b'r' b'e' b'g' b'f'
      × (get32 h.mem Header.major_ver ≡ 1)
      × (xor_words h.mem 127 0 0 ≡ get32 h.mem Header.csum)
unfolding check_header header_checksum
check_header_lem h e = after h _ _ e λ regf magic e1. after_require h _ _ _ e1 λ is_regf e2.
    after h _ _ e2 λ major_ver version e3. after_require h _ _ _ e3 λ is_one e4.
      after h _ _ e4 λ granted _ e5. after h _ _ e5 λ sum checksum e6.
        after h _ _ e6 λ csum stored e7.
          let same : (sum == csum) ≡ true = require-eq-ok h _ _ e7 in
          (
            magic_eq-FourBytes h 0 _ _ _ _ (magic ∙ ap ok is_regf),
            ground (arith, load32-eq-ok _ h version, is_one),
            ground (arith, checksum_loop-eq-ok h 127 0 0 checksum, same, load32-eq-ok _ h stored),
          )

-- The blocks and the root, for the handle `h` that is being filled in.
read_blocks_lem :
    (h g : Hive)
    → h.size ≤ 2 ^ 31
    → read_blocks h ≡ ok g
    → (s : Scan) × (r e t : ℕ) × IsScan h r s
      × (s.seen_root ≡ true)
      × (s.bad_root ≡ false)
      × (g ≡ record h { bitmap = s.bitmap; rootoffs = r; endpages = e; last_modified = t })
unfolding read_blocks
read_blocks_lem h g small e = after h _ _ e λ last_modified _ e1. after h _ _ e1 λ offset _ e2.
    after h _ _ e2 λ blocks _ e3. after h _ _ e3 λ s walk e4. after_require h _ _ _ e4 λ seen e5.
      after_require h _ _ _ e5 λ good e6.
        let is =
          scan_pages-IsScan (h.size + 1) h (from_offset32 offset) (from_offset32 blocks) 0x1000
            no_blocks s small (omega arith) (omega arith)
            (no_blocks-IsScan h (from_offset32 offset)) walk in
        (
          s,
          from_offset32 offset,
          from_offset32 blocks,
          last_modified,
          is,
          seen,
          ground (arith, good),
          ok-injective (sym e6),
        )

block_len_same :
    (h : Hive) (b : ℕ → ℕ) (r e t p : ℕ)
    → block_len p (record h { bitmap = b; rootoffs = r; endpages = e; last_modified = t })
      ≡ block_len p h
unfolding block_len load32 ◌>>=◌
block_len_same h b r e t p = ground arith

block_id_eq_same :
    (h : Hive) (b : ℕ → ℕ) (r e t p x y : ℕ)
    → block_id_eq p x y (record h { bitmap = b; rootoffs = r; endpages = e; last_modified = t })
      ≡ block_id_eq p x y h
unfolding block_id_eq load8 ◌>>=◌
block_id_eq_same h b r e t p x y = ground arith

IsUsedBlock_same :
    (h : Hive) (b : ℕ → ℕ) (r e t p : ℕ)
    → IsUsedBlock h p
    → IsUsedBlock (record h { bitmap = b; rootoffs = r; endpages = e; last_modified = t }) p
IsUsedBlock_same h b r e t p u = record {
  len = u.len;
  used = block_len_same h b r e t p ∙ u.used;
  long = u.long;
  whole = u.whole;
  behind_header = u.behind_header;
}

module _ (h : Hive) (s : Scan) (r e t : ℕ) where
  abbrev filled : Hive
  filled = record h { bitmap = s.bitmap; rootoffs = r; endpages = e; last_modified = t }

  used_of : (p : ℕ) → IsScan h r s → is_valid_block filled p ≡ true → IsUsedBlock h p
  used_of p is valid =
      let (aligned, _, _, set) = is_valid_block_iff p filled valid in is.blocks p aligned set

  root_of : IsScan h r s → r % 4 ≡ 0 → bitmap_tst s.bitmap r ≡ true → hivex_root filled ≡ ok r
  unfolding hivex_root
  root_of is aligned set =
      let used = is.blocks r aligned set in
      let (inside, _) = block_len-eq-ok r h used.used in
      let valid : is_valid_block filled r ≡ true =
        is_valid_block_intro r filled aligned (omega (arith, used.behind_header)) (omega arith)
          set in
      step filled _ _ (check_valid_ok filled r no_key valid) refl

-- A file of at most 2 GB that `hivex_open` accepts has the magic number, the version and the
-- checksum that it should have; the handle holds the bytes of the file; every offset that
-- `IS_VALID_BLOCK` accepts is that of a used block of an acceptable length; and `hivex_root` returns
-- the root offset, which is that of an nk record.
pub hivex_open-IsOpened :
    (grants : ℕ → Bool) (writable : Bool) (f : FileImage) (h : Hive)
    → f.size ≤ 2 ^ 31
    → hivex_open grants writable (ok f) ≡ ok h
    → IsOpened f h
unfolding hivex_open fresh_handle
hivex_open-IsOpened grants writable f g small e =
    let h = fresh_handle grants writable f in
    after h _ _ e λ _ checks rest.
      let (magic, version, checksum) = check_header_lem h checks in
      let (s, r, e, t, is, seen, good, made) = read_blocks_lem h g small rest in
      let (aligned, set, id) = is.root seen good in
      rw made (record {
        image = refl;
        size = refl;
        magic = magic;
        version = version;
        checksum = checksum;
        blocks = λ p valid. IsUsedBlock_same h s.bitmap r e t p (used_of h s r e t p is valid);
        root = root_of h s r e t is aligned set;
        root_id = block_id_eq_same h s.bitmap r e t r b'n' b'k' ∙ id;
      })
