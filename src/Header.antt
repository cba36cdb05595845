-- ===== src/Header.antt =====
-- `header_checksum` of lib/hivex.c, and the tests of `magic` bytes.
pub mod Laws
pub mod Width
use hivex.Base.{ℕ, zero, suc, ◌+◌, Bool, true, false, List, [], ◌∷◌, ◌==◌, if◌then◌else◌, bit_xor}
use hivex.Hive.{Read}
use hivex.Hive.Reader.{◌>>=◌, pure}
use hivex.Hive.Memory.{load8, load32}

-- The loop with `n` words left, from the word at `o`.
unfoldable pub checksum_loop : ℕ → ℕ → ℕ → Read ℕ
checksum_loop zero o sum = pure sum
checksum_loop (suc n) o sum = do w ← load32 o; checksum_loop n (o + 4) (bit_xor sum w)

-- The words below 0x1fc.
unfoldable pub header_checksum : Read ℕ
header_checksum = checksum_loop 127 0 0

-- `magic[0] == 'x' && magic[1] == 'y' && ...`
unfoldable pub magic_eq : ℕ → List ℕ → Read Bool
magic_eq o [] = pure true
magic_eq o (c ∷ cs) = do x ← load8 o; if x == c then magic_eq (o + 1) cs else pure false
