-- ===== src/Alloc/Sound.antt =====
-- What `allocate_block` does to a handle that is being written to.
use hivex.Base.{
  ℕ, ◌+◌, ◌-◌, ◌%◌, ◌^◌, ◌≤◌, ◌<◌, ◌≡◌, refl, arith, Bool, true, not, ◌&&◌, inl, inr, leb, ltb,
  ◌==◌, if◌then◌else◌, Bool-cases, le→leb, ◌∙◌,
}
use hivex.Hive.{Hive, ok, done, erofs, erange}
use hivex.Hive.Reader
use hivex.Hive.Writer.{◌>>=◌, ◌>>◌, pure, asks, modify}
use hivex.Hive.Writer.Laws.{
  Returns, returns, bind, next, step, require_done, assert_done, write_done,
}
use hivex.Hive.Bytes.{Image, get32, fill, put8, put32}
use hivex.Hive.Frame.{fill_frame, put8_frame, put32_frame, get32_same}
use hivex.Hive.Bitmap.{bitmap_set}
use hivex.Hive.Bitmap.Laws.{tst-set, set-IsBitmap}
use hivex.Hive.Memory.{load8, store8, store32, memset}
use hivex.Layout.{hivex_max_allocation}
use hivex.Layout.Block
use hivex.Block.{neg_size, block_len, block_id_eq, is_valid_block}
use hivex.Block.Laws.{seg_of, block_len_ok, is_valid_block_intro}
use hivex.Alloc.{write_block_header, mark_remainder, round_up, allocate_block}
use hivex.Alloc.Laws.{IsArena, SameBelow, HasRoom, frontier}
use hivex.Alloc.Room.{ensure_room-HasRoom}

-- The bytes of a block header.
abbrev pub has_id : ℕ → ℕ → ℕ → Bool
has_id n a b = not (a == 0) && not (b == 0) && leb 6 n

abbrev with_block : Image → ℕ → ℕ → ℕ → ℕ → Image
with_block m o n a b =
    let m' = put32 (fill m o n 0) (o + Block.seg_len) (2 ^ 32 - n) in
    if has_id n a b then put8 (put8 m' (o + Block.id) a) (o + Block.id + 1) b else m'

with_block_frame : (m : Image) (o n a b i : ℕ) → 8 ≤ n → i < o → with_block m o n a b i ≡ m i
with_block_frame m o n a b i long below = ground (
  arith,
  put8_frame (put8 (put32 (fill m o n 0) (o + Block.seg_len) (2 ^ 32 - n)) (o + Block.id) a)
      (o + Block.id + 1) b i (inr (omega arith)),
  put8_frame (put32 (fill m o n 0) (o + Block.seg_len) (2 ^ 32 - n)) (o + Block.id) a i
      (inr (omega arith)),
  put32_frame (fill m o n 0) (o + Block.seg_len) (2 ^ 32 - n) i (inr (omega arith)),
  fill_frame m o n 0 i (inr (omega arith)),
)

-- The length stands in the header as a negative number.
get32-with_block :
    (m : Image) (o n a b : ℕ) → 8 ≤ n → n < 2 ^ 31 → get32 (with_block m o n a b) o ≡ 2 ^ 32 - n
unfolding get32 put32 put8
get32-with_block m o n a b long short = ground arith

write_block_header_done :
    (o n a b : ℕ) (h : Hive)
    → h.writable ≡ true
    → 8 ≤ n
    → o + n ≤ h.size
    → write_block_header o n a b h
      ≡ done tt (record h { mem = with_block h.mem o n a b; bitmap = bitmap_set h.bitmap o })
unfolding write_block_header memset store32 store8
write_block_header_done o n a b h w long inside = step h _ _ (write_done h o n _ w inside) (
    step _ _ _ (write_done _ (o + Block.seg_len) 4 _ w (omega arith))
      (elim (Bool-cases (has_id n a b)) [
        | inl e ↦ rw e (
            step _ _ _
              (step _ _ _ (write_done _ (o + Block.id) 1 _ w (omega arith))
                (write_done _ (o + Block.id + 1) 1 _ w (omega arith)))
              refl)
        | inr e ↦ rw e (step _ _ _ refl refl)
      ]))

-- The free header behind the last block.
mark_remainder_done :
    (h : Hive)
    → h.writable ≡ true
    → h.endblocks % 8 ≡ 0
    → h.endpages % 8 ≡ 0
    → h.endpages ≤ h.size
    → (m : Image) × (mark_remainder h ≡ done tt (record h { mem = m }))
      × ((i : ℕ) → i < h.endblocks → m i ≡ h.mem i)
unfolding mark_remainder store32
mark_remainder_done h w blocks pages inside = elim (Bool-cases (ltb h.endblocks h.endpages)) [
  | inl more ↦
      let enough : 4 ≤ h.endpages - h.endblocks = ground (arith, more) in
      (
        put32 h.mem (h.endblocks + Block.seg_len) (h.endpages - h.endblocks),
        rw more (
            step h _ _ (assert_done h _ (le→leb _ _ enough))
              (write_done h (h.endblocks + Block.seg_len) 4 _ w (ground (arith, more)))),
        λ i below. put32_frame h.mem _ _ i (inr (omega arith)),
      )
  | inr none_left ↦ (h.mem, rw none_left refl, λ i below. refl)
]

-- A block of `n` bytes at `o`, new in `h'`.
pub record Allocated (n a b : ℕ) (h : Hive) (o : ℕ) (h' : Hive) : Type 0 where
  pub arena : IsArena h'
  pub same : SameBelow (frontier h) h h'
  pub fresh : frontier h ≤ o
  pub behind : frontier h' ≡ o + n
  pub inside : o + n ≤ h'.size
  pub valid : is_valid_block h' o ≡ true
  pub header : block_len o h' ≡ ok (n, true)
  pub id : has_id n a b ≡ true → a < 256 → b < 256 → block_id_eq o a b h' ≡ ok true

with_block_id :
    (m : Image) (o n a b : ℕ)
    → has_id n a b ≡ true
    → a < 256
    → b < 256
    → (with_block m o n a b (o + 4) ≡ a) × (with_block m o n a b (o + 5) ≡ b)
unfolding put32 put8
with_block_id m o n a b e ha hb = ground arith

-- The first bytes of the new block, read back.
module _ (n a b : ℕ) (h : Hive) (m : Image) (o : ℕ) (long : 8 ≤ n) (short : n < 2 ^ 31)
    (inside : o + n ≤ h.size) (made : (i : ℕ) → i < o + n → h.mem i ≡ with_block m o n a b i) where
  header_back : block_len o h ≡ ok (n, true)
  unfolding seg_of neg_size
  header_back =
      block_len_ok o h (omega arith)
      ∙ ground (
        arith,
        get32_same (with_block m o n a b) h.mem o (λ i _ below. made i (omega arith)),
        get32-with_block m o n a b long short,
      )

  id_back : has_id n a b ≡ true → a < 256 → b < 256 → block_id_eq o a b h ≡ ok true
  unfolding block_id_eq load8 Reader.◌>>=◌
  id_back e ha hb = ground (
    arith,
    with_block_id m o n a b e ha hb,
    made (o + 4) (omega arith),
    made (o + 5) (omega arith),
  )

write_block-Allocated :
    (n a b : ℕ) (h h' : Hive) (m : Image)
    → 8 ≤ n
    → n < 2 ^ 31
    → n % 8 ≡ 0
    → HasRoom n h h'
    → ((i : ℕ) → i < h'.endblocks + n → m i ≡ with_block h'.mem h'.endblocks n a b i)
    → Allocated n a b h h'.endblocks (record h' {
      mem = m;
      bitmap = bitmap_set h'.bitmap h'.endblocks;
      endblocks = h'.endblocks + n;
    })
write_block-Allocated n a b h h' m long short whole r below =
    let o = h'.endblocks in
    let ar = r.arena in
    record {
      arena = record {
        writable = ar.writable;
        granted = ar.granted;
        bytes = set-IsBitmap h'.bitmap ar.bytes o;
        pages_aligned = ar.pages_aligned;
        blocks_aligned = omega (arith, ar.blocks_aligned);
        header_below = ar.header_below;
        blocks_below = r.room;
        page_inside = inr (omega (arith, r.low), r.inside);
      };
      same = record {
        mem = λ i inside limit.
            below i (omega (arith, r.behind))
            ∙ with_block_frame h'.mem o n a b i long (omega (arith, r.behind))
            ∙ r.same.mem i inside limit;
        bits = λ p inside limit. ground (
          arith,
          tst-set h'.bitmap ar.bytes o p,
          r.same.bits p inside limit,
          r.behind,
          ar.blocks_aligned,
        );
        size = r.same.size;
        rootoffs = r.same.rootoffs;
      };
      fresh = r.behind;
      behind = unfold frontier in ground (arith, r.low);
      inside = omega (arith, r.room, r.inside);
      valid =
          is_valid_block_intro o _ (omega (arith, ar.blocks_aligned)) r.low
            (omega (arith, r.room, r.inside)) (ground (arith, tst-set h'.bitmap ar.bytes o o));
      header = header_back n a b _ h'.mem o long short (omega (arith, r.room, r.inside)) below;
      id = id_back n a b _ h'.mem o long short (omega (arith, r.room, r.inside)) below;
    }

-- The steps that follow `ensure_room`.
module _ (n a b : ℕ) (h h' : Hive) (r : HasRoom n h h') (long : 8 ≤ n) (short : n < 2 ^ 31)
    (whole : n % 8 ≡ 0) where
  abbrev with_header : Hive
  with_header = record h' {
    mem = with_block h'.mem h'.endblocks n a b;
    bitmap = bitmap_set h'.bitmap h'.endblocks;
    endblocks = h'.endblocks + n;
  }

  finish_block : Returns (Allocated n a b h) (
      (asks (λ h. h.endblocks) >>= λ offset.
      write_block_header offset n a b
      >> (modify (λ h. record h { endblocks = offset + n }) >> (mark_remainder >> pure offset)))
        h')
  finish_block =
      let ar = r.arena in
      let (m, remainder, same) =
        mark_remainder_done with_header ar.writable (omega (arith, ar.blocks_aligned))
          ar.pages_aligned r.inside in
      next h' _ _ refl (
        next h' _ _
          (write_block_header_done h'.endblocks n a b h' ar.writable long
            (omega (arith, r.room, r.inside)))
          (next _ _ _ refl (
            next with_header _ _ remainder
              (returns (write_block-Allocated n a b h h' m long short whole r same)))))

-- On a writable handle that is in order, with the allocator serving every request, `allocate_block`
-- returns an offset, for every length from 4 to 1000000. The block there is valid, used, has the
-- length rounded up to 8 and the identifier asked for, and lies inside the image, behind all that was
-- allocated before: below the frontier no byte and no bit of the bitmap has changed. The handle is in order
-- again, with its frontier at the end of the block.
pub allocate_block-Allocated :
    (seg_len a b : ℕ) (h : Hive)
    → IsArena h
    → 4 ≤ seg_len
    → seg_len ≤ hivex_max_allocation
    → Returns (λ o h'. Allocated (round_up seg_len) a b h o h') (allocate_block seg_len a b h)
unfolding allocate_block
allocate_block-Allocated seg_len a b h ar low high =
    let n = round_up seg_len in
    let long : 8 ≤ n = unfold round_up in omega arith in
    let short : n < 2 ^ 31 = unfold round_up in omega arith in
    let whole : n % 8 ≡ 0 = unfold round_up in omega arith in
    next h _ _ refl (
      next h _ _ (require_done h _ erofs ar.writable) (
        next h _ _ (require_done h _ erange (le→leb _ _ low)) (
          next h _ _ (require_done h _ erange (le→leb _ _ high)) (
            bind h _ _ (ensure_room-HasRoom n h ar)
              λ _ h' r. finish_block n a b h h' r long short whole))))
