-- ===== src/Layout/Sk.antt =====
-- Byte offsets of the fields of `struct ntreg_sk_record` that the library reads or writes, and its size.
use hivex.Base.{ℕ}

abbrev pub sk_next : ℕ
sk_next = 8

abbrev pub sk_prev : ℕ
sk_prev = 12

abbrev pub refcount : ℕ
refcount = 16

abbrev pub sizeof : ℕ
sizeof = 25
