-- ===== src/Shell/Parse.antt =====
-- The values that the command `setval` of sh/hivexsh.c reads from a line.
use hivex.Base.{
  ℕ, ◌-◌, ◌*◌, ◌%◌, ◌^◌, bit_or, Bool, Option, none, some, List, [], ◌∷◌, ◌++◌, leb, ◌==◌,
  if◌then◌else◌,
}
use hivex.HiveType
use hivex.Records.{le32_bytes}
use hivex.Shell.{ℤ, pos, negsuc, World}
use hivex.Shell.Text.{split_at, streq, after_prefix, get_xdigit}

-- A character and a zero before the rest.
unfoldable pub wide : ℕ → Option (List ℕ) → Option (List ℕ)
wide c none = none
wide c (some xs) = some (c ∷ 0 ∷ xs)

-- A string with its NUL as UTF-16, if all of its bytes are 7-bit.
unfoldable pub ascii_utf16 : List ℕ → Option (List ℕ)
ascii_utf16 [] = some (0 ∷ 0 ∷ [])
ascii_utf16 (c ∷ cs) = let r = ascii_utf16 cs in if leb 128 c then none else wide c r

-- `c <<= 4; c |= d;` on a 32-bit `int`.
unfoldable pub shift_in : ℕ → ℕ → ℕ
shift_in c d = bit_or (c * 16 % 2 ^ 32) d

unfoldable pub byte_then : ℕ → Option (List ℕ) → Option (List ℕ)
byte_then c none = none
byte_then c (some bytes) = some (c % 256 ∷ bytes)

-- The bytes of pairs of hex digits, other characters between them ignored; the first argument is
-- the first digit of a pair, if it has been read. A digit without a second is an error.
unfoldable pub read_hex : (ℕ → Bool) → Option ℕ → List ℕ → Option (List ℕ)
read_hex is_x none [] = some []
read_hex is_x (some c) [] = none
read_hex is_x none (x ∷ xs) =
    read_hex is_x (if is_x x then some (shift_in 0 (get_xdigit x)) else none) xs
read_hex is_x (some c) (x ∷ xs) =
    let r = read_hex is_x (if is_x x then none else some c) xs in
    if is_x x then byte_then (shift_in c (get_xdigit x)) r else r

-- A number that is a `uint32_t`.
unfoldable pub unsigned32 : Option ℤ → Option ℕ
unsigned32 none = none
unsigned32 (some (pos n)) = if leb n (2 ^ 32 - 1) then some n else none
unsigned32 (some (negsuc n)) = none

-- The lower half of a `long long` in two's complement.
unfoldable pub low_word : ℤ → ℕ
low_word (pos n) = n % 2 ^ 32
low_word (negsuc n) = 2 ^ 32 - 1 - n % 2 ^ 32

-- The type and the bytes of a value.
abbrev pub Parsed : Type 0
Parsed = Option (ℕ × List ℕ)

abbrev typed : ℕ → Option (List ℕ) → Parsed
typed t none = none
typed t (some bytes) = some (t, bytes)

unfoldable pub parse_string : ℕ → List ℕ → Parsed
parse_string t s = typed t (ascii_utf16 s)

unfoldable pub parse_dword : World → List ℕ → Parsed
parse_dword w s = elim (unsigned32 (w.gnulib.xstrtol s)) [
  | none ↦ none
  | some n ↦ some (HiveType.dword, le32_bytes n)
]

-- Of the 8 bytes of the value only 4 are written.
unfoldable pub parse_qword : World → List ℕ → Parsed
parse_qword w s = elim (w.gnulib.xstrtoll s) [
  | none ↦ none
  | some n ↦ some (
    HiveType.qword,
    le32_bytes (low_word n) ++ (w.memory 4 ∷ w.memory 5 ∷ w.memory 6 ∷ w.memory 7 ∷ []),
  )
]

-- What follows the colon, if there is one.
abbrev after_colon : List ℕ → List ℕ
after_colon [] = []
after_colon (c ∷ cs) = cs

unfoldable pub parse_hex : World → List ℕ → Parsed
parse_hex w s = elim (unsigned32 (w.gnulib.xstrtol ((split_at (λ c. c == b':') s).0))) [
  | none ↦ none
  | some t ↦
      typed t (read_hex w.gnulib.c_isxdigit none (after_colon ((split_at (λ c. c == b':') s).1)))
]

abbrev pub string_prefix : List ℕ
string_prefix = b's' ∷ b't' ∷ b'r' ∷ b'i' ∷ b'n' ∷ b'g' ∷ b':' ∷ []

abbrev pub expand_string_prefix : List ℕ
expand_string_prefix =
    b'e' ∷ b'x' ∷ b'p' ∷ b'a' ∷ b'n' ∷ b'd' ∷ b's' ∷ b't' ∷ b'r' ∷ b'i' ∷ b'n' ∷ b'g' ∷ b':' ∷ []

abbrev pub dword_prefix : List ℕ
dword_prefix = b'd' ∷ b'w' ∷ b'o' ∷ b'r' ∷ b'd' ∷ b':' ∷ []

abbrev pub qword_prefix : List ℕ
qword_prefix = b'q' ∷ b'w' ∷ b'o' ∷ b'r' ∷ b'd' ∷ b':' ∷ []

abbrev pub hex_prefix : List ℕ
hex_prefix = b'h' ∷ b'e' ∷ b'x' ∷ b':' ∷ []

abbrev pub none_value : List ℕ
none_value = b'n' ∷ b'o' ∷ b'n' ∷ b'e' ∷ []

-- The first test that holds.
abbrev first : Option (List ℕ) → (List ℕ → Parsed) → Parsed → Parsed
first none parse rest = rest
first (some s) parse rest = parse s

unfoldable pub parse_value : World → List ℕ → Parsed
parse_value w buf =
    if streq buf none_value
    then some (HiveType.none, [])
    else first (after_prefix string_prefix buf) (parse_string HiveType.string) (
        first (after_prefix expand_string_prefix buf) (parse_string HiveType.expand_string) (
          first (after_prefix dword_prefix buf) (parse_dword w) (
            first (after_prefix qword_prefix buf) (parse_qword w)
              (first (after_prefix hex_prefix buf) (parse_hex w) none))))
