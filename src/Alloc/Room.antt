-- ===== src/Alloc/Room.antt =====
-- `allocate_page`, and the step of `allocate_block` that calls it.
use hivex.Base.{
  ℕ, ◌+◌, ◌-◌, ◌*◌, ◌/◌, ◌%◌, ◌≤◌, ◌<◌, ◌≡◌, refl, arith, Bool, true, false, ◌||◌, inl, inr, ltb,
  ◌==◌, if◌then◌else◌, Bool-cases, List, [], ◌∷◌, ◌∙◌,
}
use hivex.Hive.{Hive, done, enomem, dangling}
use hivex.Hive.Writer.{pure, stop}
use hivex.Hive.Writer.Laws.{Returns, returns, next, step, require_done, write_done}
use hivex.Hive.Bytes.{Image, fill, put32, put_bytes}
use hivex.Hive.Frame.{fill_frame, put32_frame, put_bytes_frame, fill-IsImage}
use hivex.Hive.Bitmap.{bitmap_tst}
use hivex.Hive.Bitmap.Laws.{IsBitmap}
use hivex.Hive.Memory.{less_header, store32, memset, store_bytes}
use hivex.Layout.Page
use hivex.Alloc.{nr_4k_pages, extend_image, write_page_header, allocate_page, ensure_room}
use hivex.Alloc.Laws.{IsArena, HasRoom, frontier}

abbrev extended : ℕ → Hive → Hive
extended n h = record h {
  size = n;
  mem = fill h.mem h.size (n - h.size) 0;
  bitmap = fill h.bitmap (1 + h.size / 32) (1 + n / 32 - (1 + h.size / 32)) 0;
}

extend_image_done :
    (n : ℕ) (h : Hive) → ((k : ℕ) → h.grants k ≡ true) → extend_image n h ≡ done tt (extended n h)
unfolding extend_image
extend_image_done n h granted =
    step h _ _ (require_done h _ enomem (granted n))
      (step h _ _ refl (step h _ _ (branch (h.grants (1 + n / 32)) (granted (1 + n / 32))) refl))
  where
    branch : (b : Bool) → b ≡ true → (if b then pure tt else stop dangling) h ≡ done tt h
    branch true e = refl
    branch false e = cc

-- The bytes of a page header.
abbrev hbin : List ℕ
hbin = b'h' ∷ b'b' ∷ b'i' ∷ b'n' ∷ []

abbrev with_page : Image → ℕ → ℕ → Image
with_page m o n =
    fill
      (put32 (put32 (put_bytes m (o + Page.magic) hbin) (o + Page.offset_first) (less_header o))
        (o + Page.page_size) n)
      (o + Page.unknown) 20 0

with_page_frame : (m : Image) (o n i : ℕ) → i < o → with_page m o n i ≡ m i
with_page_frame m o n i below =
    fill_frame _ (o + Page.unknown) 20 0 i (inr (omega arith))
    ∙ put32_frame _ (o + Page.page_size) n i (inr (omega arith))
    ∙ put32_frame _ (o + Page.offset_first) (less_header o) i (inr (omega arith))
    ∙ put_bytes_frame m (o + Page.magic) hbin i (inr (omega arith))

write_page_header_done :
    (o n : ℕ) (h : Hive)
    → h.writable ≡ true
    → o + 32 ≤ h.size
    → write_page_header o n h ≡ done tt (record h { mem = with_page h.mem o n })
unfolding write_page_header store_bytes store32 memset
write_page_header_done o n h w inside =
    step h _ _ (write_done h (o + Page.magic) 4 _ w (omega arith)) (
      step _ _ _ (write_done _ (o + Page.offset_first) 4 _ w (omega arith)) (
        step _ _ _ (write_done _ (o + Page.page_size) 4 _ w (omega arith))
          (write_done _ (o + Page.unknown) 20 _ w (omega arith))))

-- The handle with the image and the bitmap extended, if that is needed.
abbrev grown : ℕ → Hive → Hive
grown n h = if ltb h.size n then extended n h else h

grown_done :
    (n : ℕ) (h : Hive)
    → ((k : ℕ) → h.grants k ≡ true)
    → (if ltb h.size n then extend_image n else pure tt) h ≡ done tt (grown n h)
grown_done n h granted = elim (Bool-cases (ltb h.size n)) [
  | inl e ↦ rw e (extend_image_done n h granted)
  | inr e ↦ rw e refl
]

abbrev with_new_page : ℕ → Hive → Hive
with_new_page n h =
    let g = grown (h.endpages + n) h in
    record g { endpages = h.endpages + n; mem = with_page g.mem h.endpages n }

page_size : ℕ → ℕ
page_size n = nr_4k_pages n * 4096

page_size_lem : (n : ℕ) → (n + 32 ≤ page_size n) × (page_size n % 8 ≡ 0)
unfolding page_size nr_4k_pages
page_size_lem n = omega arith

-- What growing keeps.
record IsGrown (n : ℕ) (h g : Hive) : Type 0 where
  size : n ≤ g.size
  size_grows : h.size ≤ g.size
  writable : g.writable ≡ h.writable
  granted : (k : ℕ) → h.grants k ≡ true → g.grants k ≡ true
  rootoffs : g.rootoffs ≡ h.rootoffs
  mem : (i : ℕ) → i < h.size → g.mem i ≡ h.mem i
  bits : (p : ℕ) → p < h.size → bitmap_tst g.bitmap p ≡ bitmap_tst h.bitmap p
  bytes : IsBitmap h.bitmap → IsBitmap g.bitmap

grown-IsGrown : (n : ℕ) (h : Hive) → IsGrown n h (grown n h)
unfolding bitmap_tst
grown-IsGrown n h = elim (Bool-cases (ltb h.size n)) [
  | inl e ↦ rw e (record {
    size = omega arith;
    size_grows = ground arith;
    writable = refl;
    granted = λ k p. p;
    rootoffs = refl;
    mem = λ i below. fill_frame h.mem h.size (n - h.size) 0 i (inr (omega arith));
    bits = λ p below. ground (
      arith,
      fill_frame h.bitmap (1 + h.size / 32) (1 + n / 32 - (1 + h.size / 32)) 0 (p / 32)
          (inr (omega arith)),
    );
    bytes = λ b. fill-IsImage h.bitmap _ _ 0 b;
  })
  | inr e ↦ rw e (record {
    size = ground arith;
    size_grows = omega arith;
    writable = refl;
    granted = λ k p. p;
    rootoffs = refl;
    mem = λ i below. refl;
    bits = λ p below. refl;
    bytes = λ b. b;
  })
]

allocate_page_done :
    (n : ℕ) (h : Hive)
    → IsArena h
    → allocate_page n h ≡ done (h.endpages + 32) (with_new_page (page_size n) h)
unfolding allocate_page page_size
allocate_page_done n h a =
    let g = grown (h.endpages + page_size n) h in
    let gr = grown-IsGrown (h.endpages + page_size n) h in
    let (large, _) = page_size_lem n in
    step h _ _ (grown_done (h.endpages + page_size n) h a.granted) (
      step g _ _ refl (
        step (record g { endpages = h.endpages + page_size n }) _ _
          (write_page_header_done h.endpages (page_size n) _ (gr.writable ∙ a.writable)
            (let s = gr.size in omega arith))
          refl))

with_new_page-HasRoom :
    (n : ℕ) (h : Hive)
    → IsArena h
    → HasRoom n h (record (with_new_page (page_size n) h) { endblocks = h.endpages + 32 })
unfolding frontier
with_new_page-HasRoom n h a =
    let gr = grown-IsGrown (h.endpages + page_size n) h in
    let (large, whole) = page_size_lem n in
    let size = gr.size in
    let front : frontier h ≤ h.endpages = ground (arith, a.blocks_below) in
    record {
      arena = record {
        writable = gr.writable ∙ a.writable;
        granted = λ k. gr.granted k (a.granted k);
        bytes = gr.bytes a.bytes;
        pages_aligned = omega (arith, a.pages_aligned);
        blocks_aligned = omega (arith, a.pages_aligned);
        header_below = omega (arith, a.header_below);
        blocks_below = omega arith;
        page_inside = inr (omega (arith, a.header_below), size);
      };
      same = record {
        mem = λ i inside below.
            with_page_frame _ h.endpages (page_size n) i (omega arith) ∙ gr.mem i inside;
        bits = λ p inside below. gr.bits p inside;
        size = gr.size_grows;
        rootoffs = gr.rootoffs;
      };
      behind = omega arith;
      low = omega (arith, a.header_below);
      room = omega arith;
      inside = size;
    }

-- After `ensure_room` there is room, and nothing below the frontier has changed.
pub ensure_room-HasRoom :
    (n : ℕ) (h : Hive) → IsArena h → Returns (λ _ h'. HasRoom n h h') (ensure_room n h)
unfolding ensure_room
ensure_room-HasRoom n h a =
    elim (Bool-cases (h.endblocks == 0 || ltb h.endpages (h.endblocks + n))) [
      | inl full ↦
          rw full (next h _ _ (allocate_page_done n h a) (returns (with_new_page-HasRoom n h a)))
      | inr fits ↦ rw fits (
          returns (record {
            arena = a;
            same = record {
              mem = λ i _ _. refl;
              bits = λ p _ _. refl;
              size = omega arith;
              rootoffs = refl;
            };
            behind = unfold frontier in ground (arith, fits);
            low = ground (arith, fits, a.page_inside);
            room = ground (arith, fits);
            inside = ground (arith, fits, a.page_inside);
          }))
    ]
