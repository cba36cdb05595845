-- ===== src/Kept/Alloc.antt =====
-- Allocation keeps the handle in order.
use hivex.Base.{
  ℕ, ◌+◌, ◌-◌, ◌*◌, ◌/◌, ◌%◌, ◌≤◌, ◌≡◌, refl, arith, Bool, true, false, ◌||◌, ltb, ◌==◌,
  if◌then◌else◌, Bool-cases, inl, inr,
}
use hivex.Hive.{Hive, enomem, dangling}
use hivex.Hive.Writer.{◌>>=◌, ◌>>◌, require, pure, stop, modify, asks}
use hivex.Hive.Bytes.{fill}
use hivex.Hive.Bitmap.Laws.{set-IsBitmap, clr-IsBitmap}
use hivex.Hive.Frame.{fill-IsImage}
use hivex.Alloc.{
  nr_4k_pages, extend_image, write_page_header, allocate_page, write_block_header, mark_remainder,
  ensure_room, round_up, allocate_block, mark_block_unused,
}
use hivex.Kept.{
  IsAligned, Ensures, ensured, bind-Ensures, Steady-Ensures, Keeps-Ensures, Ensures-Keeps, Kept,
  Kept-refl, Keeps, at_done, at_failed, at_crash, Steady, bind-Steady, if-Steady, done-Steady,
  get-Steady, asks-Steady, require-Steady, assert-Steady, bitmap-Kept, store8-Steady,
  store32-Steady, memset-Steady, store_bytes-Steady,
}

module _ (h : Hive) (n : ℕ) (w : h.writable ≡ true) where
  abbrev extended : Hive
  extended = record h {
    size = n;
    mem = fill h.mem h.size (n - h.size) 0;
    bitmap = fill h.bitmap (1 + h.size / 32) (1 + n / 32 - (1 + h.size / 32)) 0;
  }

  extended-Kept : h.size ≤ n → Kept h extended
  extended-Kept more = record {
    writable = refl;
    rootoffs = refl;
    last_modified = refl;
    grants = refl;
    size = more;
    endpages = omega arith;
    bytes = λ b. fill-IsImage h.bitmap (1 + h.size / 32) _ 0 b;
    aligned = λ a. a;
    frozen = λ r. absurd (cc);
  }

  extend_image-Keeps : h.size ≤ n → Keeps h (extend_image n h)
  unfolding extend_image ◌>>=◌ require
  extend_image-Keeps more = first (h.grants n)
    where
      second :
          (b : Bool)
          → Keeps h (
              ((if b then pure tt else stop dangling)
                  >> modify (λ h. record h {
                    size = n;
                    mem = fill h.mem h.size (n - h.size) 0;
                    bitmap = fill h.bitmap (1 + h.size / 32) (1 + n / 32 - (1 + h.size / 32)) 0;
                  }))
                h)
      second true = at_done (extended-Kept more)
      second false = at_crash

      first :
          (a : Bool)
          → Keeps h (
              (require a enomem
                  >> (asks (λ h. h.grants (1 + n / 32)) >>= λ granted.
                      (if granted then pure tt else stop dangling)
                      >> modify (λ h. record h {
                        size = n;
                        mem = fill h.mem h.size (n - h.size) 0;
                        bitmap = fill h.bitmap (1 + h.size / 32) (1 + n / 32 - (1 + h.size / 32)) 0;
                      })))
                h)
      first true = second (h.grants (1 + n / 32))
      first false = at_failed (Kept-refl h)

grow-Keeps :
    (n : ℕ) (h : Hive)
    → h.writable ≡ true
    → Keeps h ((if ltb h.size n then extend_image n else pure tt) h)
grow-Keeps n h w = elim (Bool-cases (ltb h.size n)) [
  | inl e ↦ rw e (extend_image-Keeps h n w (ground arith))
  | inr e ↦ rw e (at_done (Kept-refl h))
]

write_page_header-Steady : (o n : ℕ) → Steady (write_page_header o n)
unfolding write_page_header
write_page_header-Steady o n = bind-Steady _ _ (store_bytes-Steady _ _) λ _.
    bind-Steady _ _ (store32-Steady _ _)
      λ _. bind-Steady _ _ (store32-Steady _ _) λ _. memset-Steady _ _ _

abbrev Anything : {A : Type 0} → A → Type 0
Anything a = Unit {0}

-- An offset on an 8-byte boundary, if those of the handle are.
abbrev IsOffset : Hive → ℕ → Type 0
IsOffset g o = IsAligned g → o % 8 ≡ 0

module _ (g : Hive) (w : g.writable ≡ true) where
  endpages-Kept :
      (h : Hive) (n : ℕ)
      → Kept g h
      → g.endpages ≤ n
      → (IsAligned g → n % 8 ≡ 0)
      → Kept g (record h { endpages = n })
  endpages-Kept h n k more whole = record {
    writable = k.writable;
    rootoffs = k.rootoffs;
    last_modified = k.last_modified;
    grants = k.grants;
    size = k.size;
    endpages = more;
    bytes = k.bytes;
    aligned = λ a. (whole a, (k.aligned a).1);
    frozen = λ r. absurd (cc);
  }

  endblocks-Kept :
      (h : Hive) (o : ℕ) → Kept g h → IsOffset g o → Kept g (record h { endblocks = o })
  endblocks-Kept h o k whole = record {
    writable = k.writable;
    rootoffs = k.rootoffs;
    last_modified = k.last_modified;
    grants = k.grants;
    size = k.size;
    endpages = k.endpages;
    bytes = k.bytes;
    aligned = λ a. ((k.aligned a).0, whole a);
    frozen = λ r. absurd (cc);
  }

  allocate_page-Ensures : (n : ℕ) → Ensures g (IsOffset g) (allocate_page n g)
  unfolding allocate_page
  allocate_page-Ensures n =
      let page_size = nr_4k_pages n * 4096 in
      bind-Ensures g g Anything (IsOffset g) _ _
        (Keeps-Ensures g (grow-Keeps (g.endpages + page_size) g w))
        λ _ h1 k1 _.
          bind-Ensures g h1 Anything (IsOffset g) _ _
            (ensured
              (endpages-Kept h1 (g.endpages + page_size) k1 (omega arith) (λ a. omega (arith, a.0)))
              tt)
            λ _ h2 k2 _.
              bind-Ensures g h2 Anything (IsOffset g) _ _
                (Steady-Ensures g h2 _ w k2 (write_page_header-Steady g.endpages page_size))
                λ _ h3 k3 _. ensured k3 (λ a. omega (arith, a.0))

  ensure_room_branch :
      (n : ℕ) (b : Bool)
      → Ensures g Anything (
          (if b
              then (do
                newendblocks ← allocate_page n
                modify (λ h. record h { endblocks = newendblocks }))
              else pure tt)
            g)
  ensure_room_branch n true =
      bind-Ensures g g (IsOffset g) Anything _ _ (allocate_page-Ensures n)
        λ o h1 k1 whole. ensured (endblocks-Kept h1 o k1 whole) tt
  ensure_room_branch n false = ensured (Kept-refl g) tt

-- The last steps of `allocate_block` are relative to the handle that there is room in.
ensure_room-Steady : (n : ℕ) → Steady (ensure_room n)
unfolding ensure_room
ensure_room-Steady n h w =
    Ensures-Keeps h Anything
      (ensure_room_branch h w n (h.endblocks == 0 || ltb h.endpages (h.endblocks + n)))

write_block_header-Steady : (o n a b : ℕ) → Steady (write_block_header o n a b)
unfolding write_block_header
write_block_header-Steady o n a b = bind-Steady _ _ (memset-Steady _ _ _) λ _.
    bind-Steady _ _ (store32-Steady _ _) λ _.
      bind-Steady _ _
        (if-Steady _ (bind-Steady _ _ (store8-Steady _ _) λ _. store8-Steady _ _) (done-Steady tt))
        λ _ h w. at_done (bitmap-Kept h _ w (λ p. set-IsBitmap h.bitmap p o))

mark_remainder-Steady : Steady mark_remainder
unfolding mark_remainder
mark_remainder-Steady h w =
    if-Steady (ltb h.endblocks h.endpages)
      (bind-Steady _ _ (assert-Steady _) λ _. store32-Steady _ _) (done-Steady tt) h w

-- From the offset of the new block on.
place-Steady :
    (n a b : ℕ)
    → n % 8 ≡ 0
    → Steady (
        asks (λ h. h.endblocks) >>= λ offset.
        write_block_header offset n a b
        >> (modify (λ h. record h { endblocks = offset + n }) >> (mark_remainder >> pure offset)))
place-Steady n a b whole h w = Ensures-Keeps h Anything (
    bind-Ensures h h (λ o. o ≡ h.endblocks) Anything _ _ (ensured (Kept-refl h) refl)
      λ o h1 k1 e.
        bind-Ensures h h1 Anything Anything _ _
          (Steady-Ensures h h1 _ w k1 (write_block_header-Steady o n a b))
          λ _ h2 k2 _.
            bind-Ensures h h2 Anything Anything _ _
              (ensured (endblocks-Kept h w h2 (o + n) k2 (λ p. omega (arith, p.1, e, whole))) tt)
              λ _ h3 k3 _.
                Steady-Ensures h h3 _ w k3
                  (bind-Steady _ _ mark_remainder-Steady λ _. done-Steady o))

pub allocate_block-Steady : (n a b : ℕ) → Steady (allocate_block n a b)
unfolding allocate_block round_up
allocate_block-Steady n a b = bind-Steady _ _ (asks-Steady _) λ _.
    bind-Steady _ _ (require-Steady _ _) λ _. bind-Steady _ _ (require-Steady _ _) λ _.
      bind-Steady _ _ (require-Steady _ _)
        λ _. bind-Steady _ _ (ensure_room-Steady _) λ _. place-Steady _ a b (omega arith)

pub mark_block_unused-Steady : (o : ℕ) → Steady (mark_block_unused o)
unfolding mark_block_unused
mark_block_unused-Steady o = bind-Steady _ _ (asks-Steady _) λ _.
    bind-Steady _ _ (assert-Steady _) λ _. bind-Steady _ _ (asks-Steady _) λ _.
      bind-Steady _ _ (assert-Steady _) λ _. bind-Steady _ _ (get-Steady _) λ _.
        bind-Steady _ _ (store32-Steady _ _)
          λ _ h w. at_done (bitmap-Kept h _ w (λ p. clr-IsBitmap h.bitmap p o))
