-- ===== src/Layout/Nk.antt =====
-- Byte offsets of the fields of `struct ntreg_nk_record` that the library reads or writes, and its size.
use hivex.Base.{ℕ}

abbrev pub flags : ℕ
flags = 6

abbrev pub timestamp : ℕ
timestamp = 8

abbrev pub parent : ℕ
parent = 20

abbrev pub nr_subkeys : ℕ
nr_subkeys = 24

abbrev pub subkey_lf : ℕ
subkey_lf = 32

abbrev pub subkey_lf_volatile : ℕ
subkey_lf_volatile = 36

abbrev pub nr_values : ℕ
nr_values = 40

abbrev pub vallist : ℕ
vallist = 44

abbrev pub sk : ℕ
sk = 48

abbrev pub classname : ℕ
classname = 52

abbrev pub max_subkey_name_len : ℕ
max_subkey_name_len = 56

abbrev pub max_vk_name_len : ℕ
max_vk_name_len = 64

abbrev pub max_vk_data_len : ℕ
max_vk_data_len = 68

abbrev pub name_len : ℕ
name_len = 76

abbrev pub name : ℕ
name = 80

abbrev pub sizeof : ℕ
sizeof = 81
