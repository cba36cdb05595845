-- ===== src/Tests/Items.antt =====
-- Values that the command `setval` reads, and the theorem at them.
use hivex.Base.{
  zero, suc, ◌/◌, ◌%◌, ◌^◌, ◌<◌, ap, ◌∙◌, All, Bool-cases, inl, inr, ℕ, ◌+◌, ◌*◌, ◌-◌, ◌≡◌, refl,
  arith, true, some, List, [], ◌∷◌, ◌++◌, ◌==◌,
}
use hivex.Shell.{pos, run}
use hivex.Shell.Text.{streq, digits, drop_zeros, decimal, hex_digit, hex_byte}
use hivex.Shell.Print.{hex_list}
use hivex.Shell.Hex.{ReadsDigits}
use hivex.Shell.Setval.{IsWritten, values_text, cmd_setval-values_text}
use hivex.SetValues.{SetValue, node_set_values}
use hivex.Shell.Main.{cmd_setval}
use hivex.Tests.{sample_hive}
use hivex.Tests.Shells.{decimal_value, small_world, quit_line, loaded_shell}

abbrev two_bytes : List ℕ
two_bytes = 0x0a ∷ 0xff ∷ []

abbrev first_item : SetValue
first_item = record { key = b'k' ∷ []; t = 3; value = two_bytes }

abbrev second_item : SetValue
second_item = record { key = []; t = 3; value = [] }

-- The digits of a number are read as that number.
decimal_value-digits :
    (n v : ℕ) (rest : List ℕ)
    → v < 10 ^ n
    → decimal_value 0 (digits 10 n v rest) ≡ decimal_value v rest
unfolding digits
decimal_value-digits zero v rest small = let none_left : v ≡ 0 = omega arith in rw none_left refl
decimal_value-digits (suc n) v rest small =
    decimal_value-digits n (v / 10) _ (omega arith) ∙ ap (λ k. decimal_value k rest) (last_digit v)
  where
    last_digit : (v : ℕ) → v / 10 * 10 + (hex_digit (v % 10) - b'0') ≡ v
    last_digit v = unfold hex_digit in ground arith

decimal_value-drop_zeros : (xs : List ℕ) → decimal_value 0 (drop_zeros xs) ≡ decimal_value 0 xs
unfolding drop_zeros
decimal_value-drop_zeros [] = refl
decimal_value-drop_zeros (c ∷ []) = refl
decimal_value-drop_zeros (c ∷ d ∷ ds) = elim (Bool-cases (c == b'0')) [
  | inl e ↦
      let zero_digit : c ≡ b'0' = ground (arith, e) in
      rw (e, zero_digit) (decimal_value-drop_zeros (d ∷ ds))
  | inr e ↦ rw e refl
]

small_world-ReadsDigits : ReadsDigits small_world
unfolding decimal
small_world-ReadsDigits = record {
  decimals = λ t small.
      ap (λ n. some (pos n))
        (decimal_value-drop_zeros (digits 10 20 t []) ∙ decimal_value-digits 20 t [] (omega arith));
  hex_digits = λ c. refl;
}

abbrev two_items : List SetValue
two_items = first_item ∷ second_item ∷ []

two_items-IsWritten : All IsWritten two_items
unfolding streq decimal digits drop_zeros hex_list hex_digit hex_byte
two_items-IsWritten = (
  record {
    key_text = ((ground arith, ground arith), tt);
    key_fits = omega arith;
    not_default = refl;
    type_fits = omega arith;
    bytes = (omega arith, (omega arith, tt));
    line_fits = omega arith;
  },
  (
    record {
      key_text = tt;
      key_fits = omega arith;
      not_default = refl;
      type_fits = omega arith;
      bytes = tt;
      line_fits = omega arith;
    },
    tt,
  ),
)

-- The text that is read there.
two_bytes_text : hex_list true two_bytes ≡ b'0' ∷ b'a' ∷ b',' ∷ b'f' ∷ b'f' ∷ []
unfolding hex_list hex_byte hex_digit
two_bytes_text = refl

-- The whole input for the two values.
items_text :
    values_text two_items []
    ≡ b'k'
        ∷ 10
        ∷ (b'h' ∷ b'e' ∷ b'x' ∷ b':' ∷ b'3' ∷ b':' ∷ b'0' ∷ b'a' ∷ b',' ∷ b'f' ∷ b'f' ∷ 10 ∷ [])
      ++ (b'@' ∷ 10 ∷ b'h' ∷ b'e' ∷ b'x' ∷ b':' ∷ b'3' ∷ b':' ∷ 10 ∷ [])
unfolding decimal digits drop_zeros hex_digit hex_list hex_byte
items_text = refl

cmd_setval-values_text_example :
    cmd_setval small_world
      (decimal 2)
      (record (loaded_shell sample_hive) { input = values_text two_items quit_line })
    ≡ run
        (node_set_values 0x1020 two_items)
        (record (loaded_shell sample_hive) { input = quit_line })
cmd_setval-values_text_example =
    cmd_setval-values_text small_world small_world-ReadsDigits two_items quit_line
      (loaded_shell sample_hive) two_items-IsWritten (omega arith)
