-- ===== src/Tests/Shells.antt =====
-- The theorems about the shell, at small sessions, and runs of it.
use hivex.Base.{
  ℕ, ◌+◌, ◌*◌, ◌-◌, ◌≡◌, refl, arith, Bool, true, false, Option, none, some, List, [], ◌∷◌, ◌++◌,
  ◌==◌,
}
use hivex.Hive.{Hive, ok}
use hivex.Sample.{sample_file}
use hivex.Shell.{ℤ, pos, World, Shell, failure}
use hivex.Shell.Text.{xdigit}
use hivex.Shell.Main.{dispatch_loaded, main, hivexsh}
use hivex.Shell.Rule.{After}
use hivex.Shell.Order.{InOrder}
use hivex.Shell.Order.Follow.{Follows, dispatch_loaded-Follows}
use hivex.Shell.Order.Session.{IsEnd, OpenedAs, rounds, hivexsh-IsEnd, main-rounds}
use hivex.Tests.{all_granted, sample_hive}
use hivex.Tests.Deleting.{plain}

-- A number in decimal.
abbrev pub decimal_value : ℕ → List ℕ → ℕ
decimal_value n [] = n
decimal_value n (c ∷ cs) = decimal_value (n * 10 + (c - b'0')) cs

abbrev pub read_decimal : List ℕ → Option ℤ
read_decimal s = some (pos (decimal_value 0 s))

abbrev is_space : ℕ → Bool
is_space c = c == b' '

-- Every file is the small hive, and output succeeds.
abbrev pub small_world : World
small_world = record {
  gnulib = record {
    c_isspace = is_space;
    c_isxdigit = xdigit;
    xstrtol = read_decimal;
    xstrtoll = read_decimal;
  };
  iconv = plain;
  memory = λ i. 0;
  help_text = b'h' ∷ [];
  qsort = λ names. names;
  grants = all_granted;
  read_file = λ name. ok sample_file;
  files = λ name. record { opening = none; writing = none; closing = none };
  open_write = true;
  is_tty = false;
}

abbrev cd_line : List ℕ
cd_line = b'c' ∷ b'd' ∷ b' ' ∷ b'A' ∷ b'b' ∷ b'c' ∷ []

abbrev pub quit_line : List ℕ
quit_line = b'q' ∷ b'u' ∷ b'i' ∷ b't' ∷ []

abbrev empty_shell : Shell
empty_shell = record {
  h = none;
  loaded = none;
  cwd = 0;
  quit = false;
  prompt = [];
  input = cd_line ++ (10 ∷ (quit_line ++ (10 ∷ cd_line)));
  output = [];
}

abbrev file_name : List ℕ
file_name = b'x' ∷ []

hivexsh-IsEnd_example :
    After
      (λ u. IsEnd (OpenedAs true) 18)
      (λ s'. ⊥)
      (hivexsh small_world (some file_name) empty_shell)
hivexsh-IsEnd_example = hivexsh-IsEnd small_world (some file_name) empty_shell refl refl refl

main-rounds_example :
    main small_world empty_shell ≡ rounds small_world (λ s. failure s) 19 empty_shell
main-rounds_example = main-rounds small_world (λ s. failure s) 19 empty_shell refl (omega arith)

-- A shell whose current node is the root of a hive.
abbrev pub loaded_shell : Hive → Shell
loaded_shell hive = record empty_shell { h = some hive; loaded = some file_name; cwd = 0x1020 }

abbrev add_command : List ℕ
add_command = b'a' ∷ b'd' ∷ b'd' ∷ []

dispatch_loaded-Follows_example :
    After
      (λ u. InOrder (Follows sample_hive) 18)
      (InOrder (Follows sample_hive) 18)
      (dispatch_loaded small_world add_command file_name (loaded_shell sample_hive))
dispatch_loaded-Follows_example =
    dispatch_loaded-Follows small_world add_command file_name (loaded_shell sample_hive) sample_hive
      refl refl
