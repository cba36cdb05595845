-- ===== src/Commit/Sound.antt =====
-- What `hivex_commit` writes.
use hivex.Base.{ℕ, ◌+◌, ◌%◌, ◌^◌, ◌≤◌, ◌<◌, ◌≡◌, refl, arith, true, ◌⊎◌, none, inr, ◌∙◌, sym}
use hivex.Hive.{Hive, done, einval, erofs}
use hivex.Hive.Writer.Laws.{Returns, returns, next, step, require_done, get_done, write_done}
use hivex.Hive.Bytes.{Image, get32, put32}
use hivex.Hive.Frame.{IsImage, put32-IsImage, put32_frame, get32-put32, get32_same}
use hivex.Hive.Memory.{less_header, store32}
use hivex.Hive.Memory.Laws.{load32_ok}
use hivex.Layout.Header
use hivex.Header.{header_checksum}
use hivex.Header.Laws.{xor_words, checksum_loop_ok}
use hivex.Header.Width.{xor_words_width, xor_words_same}
use hivex.Open.{FileImage}
use hivex.Commit.{Output, update_header, hivex_commit}

-- An output file that takes everything.
abbrev pub no_errors : Output
no_errors = record { opening = none; writing = none; closing = none }

-- The image before the checksum is stored, and after.
abbrev with_fields : Hive → Image
with_fields h =
    let sequence = (get32 h.mem Header.sequence1 + 1) % 2 ^ 32 in
    put32 (put32 (put32 h.mem Header.sequence1 sequence) Header.sequence2 sequence) Header.blocks
      (less_header h.endpages)

abbrev committed : Hive → Image
committed h = put32 (with_fields h) Header.csum (xor_words (with_fields h) 127 0 0)

module _ (h : Hive) (w : h.writable ≡ true) (large : 0x1000 ≤ h.size) where
  update_header_done : update_header h ≡ done tt (record h { mem = committed h })
  unfolding update_header header_checksum store32
  update_header_done = step h _ _ (get_done h _ (load32_ok Header.sequence1 h (omega arith))) (
      step h _ _ (write_done h Header.sequence1 4 _ w (omega arith)) (
        step _ _ _ (write_done _ Header.sequence2 4 _ w (omega arith)) (
          step _ _ _ refl (
            step _ _ _ (write_done _ Header.blocks 4 _ w (omega arith)) (
              step _ _ _ (get_done _ _ (checksum_loop_ok _ 127 0 0 (omega arith)))
                (write_done _ Header.csum 4 _ w (omega arith)))))))

-- Not in a field of the header that `hivex_commit` sets.
abbrev pub IsOther : ℕ → Type 0
IsOther i =
    ((i < Header.sequence1) ⊎ (Header.sequence2 + 4 ≤ i))
    × ((i < Header.blocks) ⊎ (Header.blocks + 4 ≤ i))
    × ((i < Header.csum) ⊎ (Header.csum + 4 ≤ i))

-- The file that has been written.
pub record IsCommitted (h : Hive) (f : FileImage) : Type 0 where
  pub size_is : f.size ≡ h.size
  pub bytes : IsImage f.bytes
  pub sequence_next : get32 f.bytes Header.sequence1 ≡ (get32 h.mem Header.sequence1 + 1) % 2 ^ 32
  pub sequences_agree : get32 f.bytes Header.sequence2 ≡ get32 f.bytes Header.sequence1
  pub blocks_is : get32 f.bytes Header.blocks ≡ less_header h.endpages % 2 ^ 32
  pub checksum : get32 f.bytes Header.csum ≡ xor_words f.bytes 127 0 0
  pub others : (i : ℕ) → IsOther i → f.bytes i ≡ h.mem i

abbrev next_sequence : Hive → ℕ
next_sequence h = (get32 h.mem Header.sequence1 + 1) % 2 ^ 32

module _ (h : Hive) where
  with_fields_other : (i : ℕ) → IsOther i → with_fields h i ≡ h.mem i
  with_fields_other i (s, b, c) =
      put32_frame _ Header.blocks _ i (omega arith)
      ∙ put32_frame _ Header.sequence2 _ i (omega arith)
      ∙ put32_frame _ Header.sequence1 _ i (omega arith)

  committed_below : (i : ℕ) → i < Header.csum → committed h i ≡ with_fields h i
  committed_below i below = put32_frame (with_fields h) Header.csum _ i (inr (omega arith))

  committed_field : (o : ℕ) → o + 4 ≤ Header.csum → get32 (committed h) o ≡ get32 (with_fields h) o
  committed_field o below =
      get32_same (with_fields h) (committed h) o λ i _ lt. committed_below i (omega arith)

  -- The stores that come after a field do not touch it.
  sequence1_is : get32 (with_fields h) Header.sequence1 ≡ next_sequence h
  sequence1_is =
      get32_same _ _ Header.sequence1 (λ i a b. put32_frame _ Header.blocks _ i (omega arith))
      ∙ get32_same _ _ Header.sequence1 (λ i a b. put32_frame _ Header.sequence2 _ i (omega arith))
      ∙ get32-put32 h.mem Header.sequence1 (next_sequence h)
      ∙ omega arith

  sequence2_is : get32 (with_fields h) Header.sequence2 ≡ next_sequence h
  sequence2_is =
      get32_same _ _ Header.sequence2 (λ i a b. put32_frame _ Header.blocks _ i (omega arith))
      ∙ get32-put32 _ Header.sequence2 (next_sequence h)
      ∙ omega arith

  module _ (bytes : IsImage h.mem) where
    with_fields-IsImage : IsImage (with_fields h)
    with_fields-IsImage =
        put32-IsImage _ Header.blocks _
          (put32-IsImage _ Header.sequence2 _ (put32-IsImage _ Header.sequence1 _ bytes))

    committed-IsCommitted : IsCommitted h (record { size = h.size; bytes = committed h })
    committed-IsCommitted = record {
      size_is = refl;
      bytes = put32-IsImage _ Header.csum _ with_fields-IsImage;
      sequence_next = committed_field Header.sequence1 (omega arith) ∙ sequence1_is;
      sequences_agree =
          committed_field Header.sequence2 (omega arith)
          ∙ sequence2_is
          ∙ sym (committed_field Header.sequence1 (omega arith) ∙ sequence1_is);
      blocks_is = committed_field Header.blocks (omega arith) ∙ get32-put32 _ Header.blocks _;
      checksum =
          let width = xor_words_width (with_fields h) 127 0 0 with_fields-IsImage (omega arith) in
          let same =
            xor_words_same (with_fields h) (committed h) 127 0 0
              (λ i lt. committed_below i (omega arith)) in
          get32-put32 _ Header.csum _ ∙ omega arith ∙ sym same;
      others = λ i (s, b, c).
          put32_frame _ Header.csum _ i (omega arith) ∙ with_fields_other i (s, b, c);
    }

-- On a writable handle with a whole header, whose image holds bytes, and without errors of the
-- file system, `hivex_commit` succeeds and writes the image with these changes: the first
-- sequence number is one more, modulo 2^32, and the second one is equal to it; the field
-- `blocks` is the end of the pages less 0x1000, modulo 2^32; the checksum is that of the header
-- as it is written. No other byte is changed.
pub hivex_commit-IsCommitted :
    (h : Hive)
    → h.writable ≡ true
    → 0x1000 ≤ h.size
    → IsImage h.mem
    → Returns (λ f h'. IsCommitted h f × (h'.mem ≡ f.bytes)) (hivex_commit no_errors 0 h)
unfolding hivex_commit
hivex_commit-IsCommitted h w large bytes = next h _ _ (require_done h _ einval refl) (
    next h _ _ refl (
      next h _ _ (require_done h h.writable erofs w) (
        next h _ _ refl (
          next h _ _ (update_header_done h w large)
            (next _ _ _ refl (next _ _ _ refl (returns (committed-IsCommitted h bytes, refl))))))))
