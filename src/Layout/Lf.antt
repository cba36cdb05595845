-- ===== src/Layout/Lf.antt =====
-- Byte offsets of the fields of `struct ntreg_lf_record` that the library reads or writes, and its size.
use hivex.Base.{ℕ}

abbrev pub nr_keys : ℕ
nr_keys = 6

abbrev pub keys : ℕ
keys = 8

abbrev pub sizeof : ℕ
sizeof = 16
