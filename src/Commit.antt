-- ===== src/Commit.antt =====
-- `hivex_commit` of lib/hivex.c.
pub mod Reopen
pub mod Sound
use hivex.Base.{ℕ, ◌+◌, ◌%◌, ◌^◌, Option, none, some, ◌==◌}
use hivex.Hive.{Errno, einval, erofs, Cmd}
use hivex.Hive.Writer.{◌>>=◌, ◌>>◌, pure, throw, require, get, asks}
use hivex.Hive.Memory.{less_header, load32, store32}
use hivex.Layout.Header
use hivex.Header.{header_checksum}
use hivex.Open.{FileImage}

-- The errors of `open`, `full_write` and `close` on the output file, if any.
pub record Output : Type 0 where
  pub opening : Option Errno
  pub writing : Option Errno
  pub closing : Option Errno

abbrev pub attempt : Option Errno → Cmd (Unit {0})
attempt none = pure tt
attempt (some e) = throw e

-- The fields of the header that change, and the checksum.
unfoldable pub update_header : Cmd (Unit {0})
update_header = do
  sequence1 ← get (load32 Header.sequence1)
  let sequence = (sequence1 + 1) % 2 ^ 32
  store32 Header.sequence1 sequence
  store32 Header.sequence2 sequence
  endpages ← asks (λ h. h.endpages)
  store32 Header.blocks (less_header endpages)
  sum ← get header_checksum
  store32 Header.csum sum

-- Returns what has been written to the file.
unfoldable pub hivex_commit : Output → ℕ → Cmd FileImage
hivex_commit out flags = do
  require (flags == 0) einval
  writable ← asks (λ h. h.writable)
  require writable erofs
  attempt out.opening
  update_header
  attempt out.writing
  attempt out.closing
  asks (λ h. record { size = h.size; bytes = h.mem })
