-- ===== src/Layout/ValueList.antt =====
-- Byte offsets of the fields of `struct ntreg_value_list` that the library reads or writes, and its size.
use hivex.Base.{ℕ}

abbrev pub offset : ℕ
offset = 4

abbrev pub sizeof : ℕ
sizeof = 8
