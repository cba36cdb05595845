-- ===== src/Layout/Vk.antt =====
-- Byte offsets of the fields of `struct ntreg_vk_record` that the library reads or writes, and its size.
use hivex.Base.{ℕ}

abbrev pub name_len : ℕ
name_len = 6

abbrev pub data_len : ℕ
data_len = 8

abbrev pub data_offset : ℕ
data_offset = 12

abbrev pub data_type : ℕ
data_type = 16

abbrev pub flags : ℕ
flags = 20

abbrev pub name : ℕ
name = 24

abbrev pub sizeof : ℕ
sizeof = 25
