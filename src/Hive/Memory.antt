-- ===== src/Hive/Memory.antt =====
-- Accesses through `h->addr`. Outside the image they are a fault, and so is a write to the image of
-- a handle that is not writable, which is mapped read-only.
pub mod Laws
pub mod Range
use hivex.Base.{ℕ, ◌+◌, ◌-◌, ◌%◌, ◌^◌, ◌&&◌, List, leb, if◌then◌else◌, length}
use hivex.Hive.{Hive, Trap, fault, Result, ok, trap, Outcome, done, crash, Read, Cmd}
use hivex.Hive.Bytes.{
  Image, get16, get32, get64, put8, put16, put32, put64, fill, put_bytes, get_bytes,
}

-- `off - 0x1000` on `size_t`: the form in which the file stores an offset.
unfoldable pub less_header : ℕ → ℕ
less_header off = (off + 2 ^ 64 - 0x1000) % 2 ^ 64

unfoldable pub load8 : ℕ → Read ℕ
load8 o h = if leb (o + 1) h.size then ok (h.mem o) else trap fault

unfoldable pub load16 : ℕ → Read ℕ
load16 o h = if leb (o + 2) h.size then ok (get16 h.mem o) else trap fault

unfoldable pub load32 : ℕ → Read ℕ
load32 o h = if leb (o + 4) h.size then ok (get32 h.mem o) else trap fault

unfoldable pub load64 : ℕ → Read ℕ
load64 o h = if leb (o + 8) h.size then ok (get64 h.mem o) else trap fault

unfoldable pub load_bytes : ℕ → ℕ → Read (List ℕ)
load_bytes o n h = if leb (o + n) h.size then ok (get_bytes h.mem o n) else trap fault

-- Writing the range of `n` bytes at `o` by `f`.
unfoldable pub write : ℕ → ℕ → (Image → Image) → Cmd (Unit {0})
write o n f h =
    if h.writable && leb (o + n) h.size then done tt (record h { mem = f h.mem }) else crash fault

unfoldable pub store8 : ℕ → ℕ → Cmd (Unit {0})
store8 o v = write o 1 (λ m. put8 m o v)

unfoldable pub store16 : ℕ → ℕ → Cmd (Unit {0})
store16 o v = write o 2 (λ m. put16 m o v)

unfoldable pub store32 : ℕ → ℕ → Cmd (Unit {0})
store32 o v = write o 4 (λ m. put32 m o v)

unfoldable pub store64 : ℕ → ℕ → Cmd (Unit {0})
store64 o v = write o 8 (λ m. put64 m o v)

unfoldable pub memset : ℕ → ℕ → ℕ → Cmd (Unit {0})
memset o v n = write o n (λ m. fill m o n v)

unfoldable pub store_bytes : ℕ → List ℕ → Cmd (Unit {0})
store_bytes o xs = write o (length xs) (λ m. put_bytes m o xs)
