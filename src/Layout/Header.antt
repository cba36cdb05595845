-- ===== src/Layout/Header.antt =====
-- Byte offsets of the fields of `struct ntreg_header` that the library reads or writes, and its size.
use hivex.Base.{ℕ}

abbrev pub magic : ℕ
magic = 0

abbrev pub sequence1 : ℕ
sequence1 = 4

abbrev pub sequence2 : ℕ
sequence2 = 8

abbrev pub last_modified : ℕ
last_modified = 12

abbrev pub major_ver : ℕ
major_ver = 20

abbrev pub offset : ℕ
offset = 36

abbrev pub blocks : ℕ
blocks = 40

abbrev pub csum : ℕ
csum = 0x1fc

abbrev pub sizeof : ℕ
sizeof = 0x1000
