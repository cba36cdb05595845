-- ===== src/Node.antt =====
-- The operations of lib/hivex.c that read one nk record.
pub mod Asserts
pub mod Sound
use hivex.Base.{ℕ, ◌+◌, ◌-◌, ◌^◌, List, leb, ltb}
use hivex.Hive.{einval, efault, no_key, Read}
use hivex.Hive.Reader.{◌>>=◌, ◌>>◌, pure, require, malloc}
use hivex.Hive.Memory.{load16, load32, load64, load_bytes}
use hivex.Layout.Nk
use hivex.Block.{block_len, check_nk, check_valid}

unfoldable pub hivex_root : Read ℕ
hivex_root h = (do check_valid h.rootoffs no_key; pure h.rootoffs) h

unfoldable pub node_struct_length : ℕ → Read ℕ
node_struct_length node = do
  check_nk node
  name_len ← load16 (node + Nk.name_len)
  let ret = name_len + Nk.sizeof - 1
  (seg_len, used) ← block_len node
  require (leb ret seg_len) efault
  pure ret

-- The bytes of the name; the code ends them with a NUL.
unfoldable pub node_name : ℕ → Read (List ℕ)
node_name node = do
  check_nk node
  len ← load16 (node + Nk.name_len)
  (seg_len, used) ← block_len node
  require (leb (Nk.sizeof + len - 1) seg_len) efault
  malloc (len + 1)
  load_bytes (node + Nk.name) len

-- A time is the bit pattern of an `int64_t`; negative times are refused.
unfoldable pub timestamp_check : ℕ → Read ℕ
timestamp_check timestamp = do require (ltb timestamp (2 ^ 63)) einval; pure timestamp

unfoldable pub hivex_last_modified : Read ℕ
hivex_last_modified h = timestamp_check h.last_modified h

unfoldable pub node_timestamp : ℕ → Read ℕ
node_timestamp node = do check_nk node; ret ← load64 (node + Nk.timestamp); timestamp_check ret

unfoldable pub node_parent : ℕ → Read ℕ
node_parent node = do
  check_nk node
  parent ← load32 (node + Nk.parent)
  let ret = parent + 0x1000
  check_valid ret efault
  pure ret
