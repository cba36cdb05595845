-- ===== src/Shell/Setval.antt =====
-- The command `setval`, from the bytes of its input to the call of the library.
use hivex.Base.{
  ℕ, ◌<◌, ◌≤◌, ◌≡◌, refl, ap, arith, true, false, some, List, [], ◌∷◌, ◌++◌, All, length, leb, ◌^◌,
}
use hivex.SetValues.{SetValue, node_set_values}
use hivex.Shell.{pos, World, Shell, Turn, success, Act, ◌>>=◌, run}
use hivex.Shell.Text.{streq, decimal}
use hivex.Shell.Parse.{parse_value}
use hivex.Shell.Print.{default_key}
use hivex.Shell.Lines.{IsText, line_room, rl_gets-line}
use hivex.Shell.Hex.{value_line, ReadsDigits, parse_value-value_line, value_line-IsText}
use hivex.Shell.Command.{read_line, expect, count_of, max_values}
use hivex.Shell.Main.{read_values, cmd_setval}

-- The line for a key: the default key is written as `@`.
abbrev pub key_line : List ℕ → List ℕ
key_line [] = b'@' ∷ []
key_line (c ∷ cs) = c ∷ cs

-- The lines for some values, before the rest of the input.
abbrev pub values_text : List SetValue → List ℕ → List ℕ
values_text [] rest = rest
values_text (v ∷ vs) rest =
    key_line v.key ++ (10 ∷ (value_line v.t v.value ++ (10 ∷ values_text vs rest)))

-- A value whose two lines fit into the buffer of `rl_gets`, and stand for it.
pub record IsWritten (v : SetValue) : Type 0 where
  pub key_text : All IsText v.key
  pub key_fits : length v.key < line_room
  pub not_default : streq v.key (b'@' ∷ []) ≡ false
  pub type_fits : v.t < 2 ^ 32
  pub bytes : All (λ b. b < 256) v.value
  pub line_fits : length (value_line v.t v.value) < line_room

key_line-IsText : (key : List ℕ) → All IsText key → All IsText (key_line key)
key_line-IsText [] text = ((ground arith, ground arith), tt)
key_line-IsText (c ∷ cs) text = text

key_line-fits : (key : List ℕ) → length key < line_room → length (key_line key) < line_room
key_line-fits [] fits = omega arith
key_line-fits (c ∷ cs) fits = fits

default_key-key_line :
    (key : List ℕ) → streq key (b'@' ∷ []) ≡ false → default_key (key_line key) ≡ key
unfolding streq
default_key-key_line [] other = refl
default_key-key_line (c ∷ cs) other = rw other refl

and_next :
    {A B : Type 0} (m : Act A) (f : A → Act B) (s : Shell) {a : A} {s' : Shell} {r : Turn B}
    → m s ≡ success a s'
    → f a s' ≡ r
    → (m >>= f) s ≡ r
unfolding ◌>>=◌
and_next m f s p q = rw (p, ◌>>=◌) q

read_line-line :
    (s : Shell) (xs rest : List ℕ)
    → All IsText xs
    → length xs < line_room
    → read_line (record s { input = xs ++ (10 ∷ rest) }) ≡ success xs (record s { input = rest })
unfolding read_line
read_line-line s xs rest text fits = rw (rl_gets-line xs rest text fits, read_line) refl

module _ (w : World) (std : ReadsDigits w) where
  expect_parsed :
      (v : SetValue) (s : Shell)
      → IsWritten v
      → expect (parse_value w (value_line v.t v.value)) s ≡ success (v.t, v.value) s
  unfolding expect
  expect_parsed v s p = rw (parse_value-value_line w v.t v.value std p.type_fits p.bytes) refl

  read_values-text :
      (vs : List SetValue) (rest : List ℕ) (s : Shell)
      → All IsWritten vs
      → read_values w (length vs) (record s { input = values_text vs rest })
        ≡ success vs (record s { input = rest })
  unfolding read_values expect
  read_values-text [] rest s all = refl
  read_values-text (v ∷ vs) rest s (p, all) =
      and_next _ _ _
        (read_line-line s (key_line v.key) _ (key_line-IsText v.key p.key_text)
          (key_line-fits v.key p.key_fits))
        (and_next _ _ _
          (read_line-line s (value_line v.t v.value) _ (value_line-IsText v.t v.value p.bytes)
            p.line_fits)
          (and_next _ _ _ (expect_parsed v (record s { input = values_text vs rest }) p) (
            and_next _ _ _ (read_values-text vs rest s all) (
              ap
                (λ key.
                  success (record { key = key; t = v.t; value = v.value } ∷ vs)
                    (record s { input = rest }))
                (default_key-key_line v.key p.not_default)))))

  expect_count :
      (n : ℕ) (s : Shell)
      → n ≤ max_values
      → expect (count_of (w.gnulib.xstrtol (decimal n))) s ≡ success n s
  unfolding expect count_of
  expect_count n s few =
      let read : w.gnulib.xstrtol (decimal n) ≡ some (pos n) = std.decimals n (omega arith) in
      let fits : leb n max_values ≡ true = ground arith in rw (read, fits) refl

  -- The command `setval`, given a number of values in decimal and two lines for each of them, the key
  -- and the data as `lsval` prints it in hex, reads just these lines of its input and calls
  -- `hivex_node_set_values` for the current node with exactly these values. There are 1000 values at
  -- most, each line fits into the 8192 bytes of the buffer and holds no newline and no NUL, no key is
  -- the text `@`, which stands for the default key, and types are below 2^32. Of gnulib's functions,
  -- `xstrtol` reads decimal digits as the number, and `c_isxdigit` knows the hex digits.
  pub cmd_setval-values_text :
      (vs : List SetValue) (rest : List ℕ) (s : Shell)
      → All IsWritten vs
      → length vs ≤ max_values
      → cmd_setval w (decimal (length vs)) (record s { input = values_text vs rest })
        ≡ run (node_set_values s.cwd vs) (record s { input = rest })
  unfolding cmd_setval
  cmd_setval-values_text vs rest s all few =
      and_next _ _ _ (expect_count (length vs) (record s { input = values_text vs rest }) few)
        (and_next _ _ _ (read_values-text vs rest s all) (and_next _ _ _ refl refl))
