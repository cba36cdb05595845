-- ===== src/Shell/Text.antt =====
-- The functions on strings that sh/hivexsh.c uses of the C library, and `get_xdigit`.
use hivex.Base.{
  ℕ, zero, suc, ◌+◌, ◌-◌, ◌/◌, ◌%◌, ◌^◌, Bool, true, false, ◌&&◌, ◌||◌, Option, none, some, List,
  [], ◌∷◌, leb, ltb, ◌==◌, if◌then◌else◌,
}

-- The bytes before the first that `stop` holds of, and the rest: `strcspn`.
unfoldable pub split_at : (ℕ → Bool) → List ℕ → List ℕ × List ℕ
split_at stop [] = ([], [])
split_at stop (c ∷ cs) = let r = split_at stop cs in if stop c then ([], c ∷ cs) else (c ∷ r.0, r.1)

-- What is left after the first bytes that `p` holds of: `strspn`.
unfoldable pub skip_while : (ℕ → Bool) → List ℕ → List ℕ
skip_while p [] = []
skip_while p (c ∷ cs) = let r = skip_while p cs in if p c then r else c ∷ cs

-- The string without the last bytes that `p` holds of.
unfoldable pub trim_end : (ℕ → Bool) → List ℕ → List ℕ
trim_end p [] = []
trim_end p (c ∷ cs) = keep (trim_end p cs)
  where
    keep : List ℕ → List ℕ
    keep [] = if p c then [] else c ∷ []
    keep (d ∷ ds) = c ∷ d ∷ ds

-- `STREQ (a, b)`
unfoldable pub streq : List ℕ → List ℕ → Bool
streq [] [] = true
streq [] (y ∷ ys) = false
streq (x ∷ xs) [] = false
streq (x ∷ xs) (y ∷ ys) = (x == y) && streq xs ys

-- `STRPREFIX (a, b)`: the rest of the string after the prefix.
unfoldable pub after_prefix : List ℕ → List ℕ → Option (List ℕ)
after_prefix [] s = some s
after_prefix (p ∷ ps) [] = none
after_prefix (p ∷ ps) (c ∷ cs) = let r = after_prefix ps cs in if p == c then r else none

abbrev is_digit : ℕ → Bool
is_digit c = leb b'0' c && leb c b'9'

abbrev is_small : ℕ → Bool
is_small c = leb b'a' c && leb c b'f'

abbrev is_capital : ℕ → Bool
is_capital c = leb b'A' c && leb c b'F'

-- -1 is `2 ^ 32 - 1`.
unfoldable pub get_xdigit : ℕ → ℕ
get_xdigit c =
    if is_digit c
    then c - b'0'
    else if is_small c
    then c - b'a' + 10
    else if is_capital c
    then c - b'A' + 10
    else 2 ^ 32 - 1

-- What `isxdigit` holds of in the C locale.
abbrev pub xdigit : ℕ → Bool
xdigit c = is_digit c || is_small c || is_capital c

-- A digit of `%x`.
unfoldable pub hex_digit : ℕ → ℕ
hex_digit d = if ltb d 10 then b'0' + d else b'a' + (d - 10)

-- `%02x` of a byte.
unfoldable pub hex_byte : ℕ → List ℕ
hex_byte b = hex_digit (b / 16) ∷ hex_digit (b % 16) ∷ []

-- The last `n` digits in the base, before `rest`.
unfoldable pub digits : ℕ → ℕ → ℕ → List ℕ → List ℕ
digits base zero v rest = rest
digits base (suc n) v rest = digits base n (v / base) (hex_digit (v % base) ∷ rest)

-- Leading zeros are dropped, but for the last digit.
unfoldable pub drop_zeros : List ℕ → List ℕ
drop_zeros [] = []
drop_zeros (c ∷ []) = c ∷ []
drop_zeros (c ∷ d ∷ ds) = let r = drop_zeros (d ∷ ds) in if c == b'0' then r else c ∷ d ∷ ds

-- `%d` of a number below `2 ^ 64`.
unfoldable pub decimal : ℕ → List ℕ
decimal v = drop_zeros (digits 10 20 v [])

-- `%d` of a word of `w` bits read as a signed number.
unfoldable pub signed_decimal : ℕ → ℕ → List ℕ
signed_decimal w v = if ltb v (2 ^ (w - 1)) then decimal v else b'-' ∷ decimal (2 ^ w - v)
