-- ===== src/Alloc/Laws.antt =====
-- The state that allocation keeps, and its meaning.
use hivex.Base.{ℕ, ◌+◌, ◌%◌, ◌≤◌, ◌<◌, ◌≡◌, true, ◌⊎◌, ◌==◌, if◌then◌else◌}
use hivex.Hive.{Hive}
use hivex.Hive.Bitmap.{bitmap_tst}
use hivex.Hive.Bitmap.Laws.{IsBitmap}

-- A handle that is being written to.
pub record IsArena (h : Hive) : Type 0 where
  pub writable : h.writable ≡ true
  pub granted : (n : ℕ) → h.grants n ≡ true
  pub bytes : IsBitmap h.bitmap
  pub pages_aligned : h.endpages % 8 ≡ 0
  pub blocks_aligned : h.endblocks % 8 ≡ 0
  pub header_below : 0x1000 ≤ h.endpages
  pub blocks_below : h.endblocks ≤ h.endpages
  pub page_inside : (h.endblocks ≡ 0) ⊎ ((0x1000 ≤ h.endblocks) × (h.endpages ≤ h.size))

-- New blocks stand at or behind this offset.
unfoldable pub frontier : Hive → ℕ
frontier h = if h.endblocks == 0 then h.endpages else h.endblocks

-- The handle after a step that leaves everything below `limit` alone.
pub record SameBelow (limit : ℕ) (h h' : Hive) : Type 0 where
  pub mem : (i : ℕ) → i < h.size → i < limit → h'.mem i ≡ h.mem i
  pub bits : (p : ℕ) → p < h.size → p < limit → bitmap_tst h'.bitmap p ≡ bitmap_tst h.bitmap p
  pub size : h.size ≤ h'.size
  pub rootoffs : h'.rootoffs ≡ h.rootoffs

-- There is room for `n` bytes at `endblocks`.
pub record HasRoom (n : ℕ) (h h' : Hive) : Type 0 where
  pub arena : IsArena h'
  pub same : SameBelow (frontier h) h h'
  pub behind : frontier h ≤ h'.endblocks
  pub low : 0x1000 ≤ h'.endblocks
  pub room : h'.endblocks + n ≤ h'.endpages
  pub inside : h'.endpages ≤ h'.size
