-- ===== src/Value.antt =====
-- The operations of lib/hivex.c that read one vk record and its data.
pub mod Sound
use hivex.Base.{
  ℕ, ◌+◌, ◌-◌, ◌*◌, ◌%◌, ◌^◌, Bool, not, ◌&&◌, ◌||◌, List, [], ◌∷◌, leb, ltb, ◌==◌, if◌then◌else◌,
  length,
}
use hivex.Hive.{einval, enotsup, erange, efault, Read}
use hivex.Hive.Reader.{◌>>=◌, ◌>>◌, pure, require, malloc}
use hivex.Hive.Memory.{load16, load32, load_bytes}
use hivex.Layout.{hivex_max_value_len}
use hivex.Layout.Vk
use hivex.HiveType
use hivex.Block.{block_len, check_vk, check_valid}

unfoldable pub value_key_len : ℕ → Read ℕ
value_key_len value = do
  check_vk value
  ret ← load16 (value + Vk.name_len)
  (seg_len, used) ← block_len value
  require (leb (Vk.sizeof + ret - 1) seg_len) efault
  pure ret

unfoldable pub value_struct_length : ℕ → Read ℕ
value_struct_length value = do key_len ← value_key_len value; pure (key_len + Vk.sizeof - 1)

unfoldable pub value_key : ℕ → Read (List ℕ)
value_key value = do
  check_vk value
  len ← value_key_len value
  malloc (len + 1)
  load_bytes (value + Vk.name) len

-- `len & 0x7fffffff` and `!!(len & 0x80000000)` of a `uint32_t`.
unfoldable pub inline_len : ℕ → ℕ
inline_len data_len = data_len % 2 ^ 31

unfoldable pub is_inline : ℕ → Bool
is_inline data_len = leb (2 ^ 31) data_len

-- The type and the length.
unfoldable pub value_type : ℕ → Read (ℕ × ℕ)
value_type value = do
  check_vk value
  t ← load32 (value + Vk.data_type)
  data_len ← load32 (value + Vk.data_len)
  pure (t, inline_len data_len)

pub record Content : Type 0 where
  pub type : ℕ
  pub bytes : List ℕ

-- `blen - 4` on `size_t`.
unfoldable pub sub_header : ℕ → ℕ
sub_header blen = (blen + 2 ^ 64 - 4) % 2 ^ 64

-- The data of a value that is not inline: at most what its block holds.
unfoldable pub block_data : ℕ → ℕ → Read (List ℕ)
block_data value len = do
  pointer ← load32 (value + Vk.data_offset)
  let data_offset = pointer + 0x1000
  check_valid data_offset efault
  (blen, used) ← block_len data_offset
  load_bytes (data_offset + 4) (if ltb (sub_header blen) len then sub_header blen else len)

-- The type and the data; `*len_rtn` is the length of the data.
unfoldable pub value_value : ℕ → Read Content
value_value value = do
  check_vk value
  t ← load32 (value + Vk.data_type)
  data_len ← load32 (value + Vk.data_len)
  let len = inline_len data_len
  require (not (is_inline data_len && ltb 4 len)) enotsup
  require (leb len hivex_max_value_len) erange
  malloc len
  bytes ←
      if is_inline data_len then load_bytes (value + Vk.data_offset) len else block_data value len
  pure (record { type = t; bytes = bytes })

-- The number that bytes stand for, lowest byte first or highest byte first.
unfoldable pub from_le : List ℕ → ℕ
from_le [] = 0
from_le (b ∷ bs) = b + 256 * from_le bs

unfoldable pub from_be : ℕ → List ℕ → ℕ
from_be acc [] = acc
from_be acc (b ∷ bs) = from_be (acc * 256 + b) bs

-- The bit pattern of the `int32_t`.
unfoldable pub value_dword : ℕ → Read ℕ
value_dword value = do
  v ← value_value value
  require ((v.type == HiveType.dword || v.type == HiveType.dword_be) && (length v.bytes == 4))
      einval
  pure (if v.type == HiveType.dword then from_le v.bytes else from_be 0 v.bytes)

-- The bit pattern of the `int64_t`.
unfoldable pub value_qword : ℕ → Read ℕ
value_qword value = do
  v ← value_value value
  require ((v.type == HiveType.qword) && (length v.bytes == 8)) einval
  pure (from_le v.bytes)
