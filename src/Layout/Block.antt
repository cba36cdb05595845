-- ===== src/Layout/Block.antt =====
-- Byte offsets of the fields of `struct ntreg_hbin_block` that the library reads or writes, and its size.
use hivex.Base.{ℕ}

abbrev pub seg_len : ℕ
seg_len = 0

abbrev pub id : ℕ
id = 4

abbrev pub sizeof : ℕ
sizeof = 6
