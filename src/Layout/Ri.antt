-- ===== src/Layout/Ri.antt =====
-- Byte offsets of the fields of `struct ntreg_ri_record` that the library reads or writes, and its size.
use hivex.Base.{ℕ}

abbrev pub nr_offsets : ℕ
nr_offsets = 6

abbrev pub offset : ℕ
offset = 8

abbrev pub sizeof : ℕ
sizeof = 12
