-- ===== src/Shell/Hex.antt =====
-- What `lsval` prints of the data of a value is what `setval` reads.
use hivex.Base.{
  ℕ, ◌/◌, ◌%◌, ◌^◌, ◌<◌, ◌≡◌, refl, arith, Bool, true, false, ◌&&◌, none, some, List, [], ◌∷◌, ◌++◌,
  All, All-append, zero, suc, ◌∙◌, ap, Bool-cases, inl, inr, ◌==◌,
}
use hivex.Hive.Bitmap.Laws.{each, each_at}
use hivex.Shell.{pos, World}
use hivex.Shell.Text.{
  split_at, streq, after_prefix, xdigit, get_xdigit, hex_digit, hex_byte, digits, drop_zeros,
  decimal,
}
use hivex.Shell.Parse.{
  shift_in, byte_then, read_hex, unsigned32, parse_hex, parse_value, hex_prefix,
}
use hivex.Shell.Print.{hex_list}
use hivex.Shell.Lines.{IsText}

-- The byte that two digits stand for.
abbrev pair_of : ℕ → ℕ → ℕ
pair_of c d = shift_in (shift_in 0 (get_xdigit c)) (get_xdigit d) % 256

abbrev is_read_back : ℕ → Bool
is_read_back b =
    xdigit (hex_digit (b / 16))
    && (xdigit (hex_digit (b % 16)) && (pair_of (hex_digit (b / 16)) (hex_digit (b % 16)) == b))

byte_table : each is_read_back 256 ≡ true
unfolding each hex_digit shift_in get_xdigit
byte_table = refl

byte_row : (b : ℕ) → b < 256 → is_read_back b ≡ true
byte_row b inside = each_at is_read_back b 256 inside byte_table

module _ (is_x : ℕ → Bool) (std : (c : ℕ) → is_x c ≡ xdigit c) where
  read_pair :
      (c d : ℕ) (rest bytes : List ℕ)
      → xdigit c ≡ true
      → xdigit d ≡ true
      → read_hex is_x none rest ≡ some bytes
      → read_hex is_x none (c ∷ d ∷ rest) ≡ some (pair_of c d ∷ bytes)
  unfolding read_hex byte_then
  read_pair c d rest bytes p q r = ground (arith, std c, std d, p, q, r)

  -- A byte, and what follows it.
  read_byte :
      (b : ℕ) (rest bytes : List ℕ)
      → b < 256
      → read_hex is_x none rest ≡ some bytes
      → read_hex is_x none (hex_byte b ++ rest) ≡ some (b ∷ bytes)
  unfolding hex_byte
  read_byte b rest bytes inside r =
      let row = byte_row b inside in
      rw
        (read_pair (hex_digit (b / 16)) (hex_digit (b % 16)) rest bytes (ground (arith, row))
          (ground (arith, row)) r)
        (ap (λ v. some (v ∷ bytes)) (ground (arith, row)))

  read_comma :
      (rest : List ℕ)
      → is_x b',' ≡ false
      → read_hex is_x none (b',' ∷ rest) ≡ read_hex is_x none rest
  unfolding read_hex
  read_comma rest e = ground (arith, e)

  -- The list behind its first byte, and the whole list.
  read_list :
      (first : Bool) (bytes : List ℕ)
      → All (λ b. b < 256) bytes
      → read_hex is_x none (hex_list first bytes) ≡ some bytes
  unfolding hex_list
  read_list first [] inside = unfold read_hex in refl
  read_list true (b ∷ bs) (p, ps) = read_byte b _ bs p (read_list false bs ps)
  read_list false (b ∷ bs) (p, ps) =
      read_comma _ (std b',') ∙ read_byte b _ bs p (read_list false bs ps)

abbrev is_colon : ℕ → Bool
is_colon c = c == b':'

split_before :
    (xs rest : List ℕ)
    → All (λ c. is_colon c ≡ false) xs
    → split_at is_colon (xs ++ (b':' ∷ rest)) ≡ (xs, b':' ∷ rest)
unfolding split_at
split_before [] rest all = refl
split_before (x ∷ xs) rest (p, all) = rw (p, split_before xs rest all) refl

-- What holds of the digits holds of the numbers.
module _ (P : ℕ → Type 0) (of_digit : (d : ℕ) → d < 16 → P (hex_digit d)) where
  digits-All : (n v : ℕ) (rest : List ℕ) → All P rest → All P (digits 10 n v rest)
  unfolding digits
  digits-All zero v rest all = all
  digits-All (suc n) v rest all = digits-All n (v / 10) _ (of_digit (v % 10) (omega arith), all)

  drop_zeros-All : (xs : List ℕ) → All P xs → All P (drop_zeros xs)
  unfolding drop_zeros
  drop_zeros-All [] all = tt
  drop_zeros-All (c ∷ []) all = all
  drop_zeros-All (c ∷ d ∷ ds) all = elim (Bool-cases (c == b'0')) [
    | inl e ↦ rw e (drop_zeros-All (d ∷ ds) all.1)
    | inr e ↦ rw e all
  ]

  decimal-All : (v : ℕ) → All P (decimal v)
  unfolding decimal
  decimal-All v = drop_zeros-All _ (digits-All 20 v [] tt)

  hex_list-All :
      P b','
      → (first : Bool) (bytes : List ℕ) → All (λ b. b < 256) bytes
      → All P (hex_list first bytes)
  unfolding hex_list hex_byte
  hex_list-All comma first [] inside = tt
  hex_list-All comma true (b ∷ bs) (p, ps) =
      (of_digit _ (omega arith), (of_digit _ (omega arith), hex_list-All comma false bs ps))
  hex_list-All comma false (b ∷ bs) (p, ps) = (
    comma,
    (of_digit _ (omega arith), (of_digit _ (omega arith), hex_list-All comma false bs ps)),
  )

hex_digit-plain : (d : ℕ) → d < 16 → is_colon (hex_digit d) ≡ false
unfolding hex_digit
hex_digit-plain d inside = ground arith

hex_digit-IsText : (d : ℕ) → d < 16 → IsText (hex_digit d)
unfolding hex_digit
hex_digit-IsText d inside = (ground arith, ground arith)

parse_hex-split :
    (w : World) (s label rest bytes : List ℕ) (t : ℕ)
    → t < 2 ^ 32
    → split_at is_colon s ≡ (label, b':' ∷ rest)
    → w.gnulib.xstrtol label ≡ some (pos t)
    → read_hex w.gnulib.c_isxdigit none rest ≡ some bytes
    → parse_hex w s ≡ some (t, bytes)
unfolding parse_hex unsigned32
parse_hex-split w s label rest bytes t small p num r = ground (arith, p, num, r)

parse_value-hex : (w : World) (s : List ℕ) → parse_value w (hex_prefix ++ s) ≡ parse_hex w s
unfolding parse_value streq after_prefix
parse_value-hex w s = refl

-- The line for `setval`: the data as `lsval` prints it, behind the type in decimal.
abbrev pub value_line : ℕ → List ℕ → List ℕ
value_line t bytes = hex_prefix ++ (decimal t ++ (b':' ∷ hex_list true bytes))

-- What is asked of gnulib's functions: decimal digits are read as the number, and the hex digits are
-- those of the C locale.
pub record ReadsDigits (w : World) : Type 0 where
  pub decimals : (t : ℕ) → t < 2 ^ 32 → w.gnulib.xstrtol (decimal t) ≡ some (pos t)
  pub hex_digits : (c : ℕ) → w.gnulib.c_isxdigit c ≡ xdigit c

pub parse_value-value_line :
    (w : World) (t : ℕ) (bytes : List ℕ)
    → ReadsDigits w
    → t < 2 ^ 32
    → All (λ b. b < 256) bytes
    → parse_value w (value_line t bytes) ≡ some (t, bytes)
parse_value-value_line w t bytes std small inside =
    parse_value-hex w _
    ∙ parse_hex-split w _ (decimal t) (hex_list true bytes) bytes t small
        (split_before (decimal t) (hex_list true bytes) (decimal-All _ hex_digit-plain t))
        (std.decimals t small) (read_list w.gnulib.c_isxdigit std.hex_digits true bytes inside)

pub value_line-IsText :
    (t : ℕ) (bytes : List ℕ) → All (λ b. b < 256) bytes → All IsText (value_line t bytes)
value_line-IsText t bytes inside = (
  (ground arith, ground arith),
  (
    (ground arith, ground arith),
    (
      (ground arith, ground arith),
      (
        (ground arith, ground arith),
        All-append IsText (decimal t) _ (decimal-All IsText hex_digit-IsText t) (
          (ground arith, ground arith),
          hex_list-All IsText hex_digit-IsText ((ground arith, ground arith)) true bytes inside,
        ),
      ),
    ),
  ),
)
