-- ===== src/SetValues/Raised.antt =====
-- The largest lengths of keys and data in a node, which `hivex_node_set_values` raises.
use hivex.Base.{ℕ, ◌+◌, ◌≤◌, ◌≡◌, refl, Bool, true, false, ltb, if◌then◌else◌}
use hivex.Hive.{Hive}
use hivex.Hive.Bytes.{Image, get32, put32}
use hivex.Hive.Frame.{Apart, put32_frame}
use hivex.Hive.Memory.{load32, store32}
use hivex.Hive.Memory.Laws.{load32_ok}
use hivex.Hive.Writer.{pure}
use hivex.Hive.Writer.Laws.{Returns, returns, next, get_done, write_done}
use hivex.Alloc.Laws.{IsArena}
use hivex.SetValues.{raise_to}

-- What a command leaves that may change the four bytes at `field` only.
pub record Raised (field : ℕ) (h h' : Hive) : Type 0 where
  pub mem : Image
  pub is : h' ≡ record h { mem = mem }
  pub others : (i : ℕ) → Apart field 4 i 1 → mem i ≡ h.mem i

pub raise_to-Raised :
    (h : Hive) (field n : ℕ)
    → h.writable ≡ true
    → field + 4 ≤ h.size
    → Returns (λ u h'. Raised field h h') (raise_to field n h)
unfolding raise_to store32
raise_to-Raised h field n w inside =
    next h _ _ (get_done h (load32 field) (load32_ok field h inside))
      (go (ltb (get32 h.mem field) n))
  where
    go :
        (b : Bool)
        → Returns (λ u h'. Raised field h h') ((if b then store32 field n else pure tt) h)
    go true = rw (write_done h field 4 (λ m. put32 m field n) w inside) (
        returns
          (record { mem = put32 h.mem field n; is = refl; others = put32_frame h.mem field n }))
    go false = returns (record { mem = h.mem; is = refl; others = λ i p. refl })

-- The order of a handle does not depend on the bytes.
pub image-IsArena : (h : Hive) (m : Image) → IsArena h → IsArena (record h { mem = m })
image-IsArena h m ar = record {
  writable = ar.writable;
  granted = ar.granted;
  bytes = ar.bytes;
  pages_aligned = ar.pages_aligned;
  blocks_aligned = ar.blocks_aligned;
  header_below = ar.header_below;
  blocks_below = ar.blocks_below;
  page_inside = ar.page_inside;
}
