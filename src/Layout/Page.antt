-- ===== src/Layout/Page.antt =====
-- Byte offsets of the fields of `struct ntreg_hbin_page` that the library reads or writes, and its size.
use hivex.Base.{ℕ}

abbrev pub magic : ℕ
magic = 0

abbrev pub offset_first : ℕ
offset_first = 4

abbrev pub page_size : ℕ
page_size = 8

abbrev pub unknown : ℕ
unknown = 12

abbrev pub sizeof : ℕ
sizeof = 32
