-- ===== src/Layout.antt =====
-- The records of a hive file, as lib/hivex.c declares them: packed, little-endian.
pub mod Header
pub mod Page
pub mod Block
pub mod Nk
pub mod Lf
pub mod Ri
pub mod ValueList
pub mod Vk
pub mod Sk
use hivex.Base.{ℕ}

abbrev pub hivex_max_subkeys : ℕ
hivex_max_subkeys = 15000

abbrev pub hivex_max_values : ℕ
hivex_max_values = 10000

abbrev pub hivex_max_value_len : ℕ
hivex_max_value_len = 1000000

abbrev pub hivex_max_allocation : ℕ
hivex_max_allocation = 1000000
