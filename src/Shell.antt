-- ===== src/Shell.antt =====
-- The shell sh/hivexsh.c: its state, and how a command ends.
pub mod Text
pub mod Parse
pub mod Print
pub mod Cd
pub mod Command
pub mod Hex
pub mod Lines
pub mod Main
pub mod Names
pub mod Order
pub mod Rule
pub mod Setval
use hivex.Base.{ℕ, Bool, true, false, Option, none, some, List, [], ◌∷◌, ◌++◌, if◌then◌else◌}
use hivex.Hive.{
  Hive, Trap, fault, abort, Result, ok, err, trap, Outcome, done, failed, crash, Read, Cmd,
}
use hivex.Open.{FileImage}
use hivex.Commit.{Output}
use hivex.Strings.{Iconv}

pub data ℤ : Type 0 where
  pos negsuc : ℕ → ℤ

-- What the shell calls of gnulib. A parse is `none` unless it returns `LONGINT_OK`.
pub record Gnulib : Type 0 where
  pub c_isspace : ℕ → Bool
  pub c_isxdigit : ℕ → Bool
  pub xstrtol : List ℕ → Option ℤ
  pub xstrtoll : List ℕ → Option ℤ

-- All that surrounds the shell. `memory` is what newly allocated memory contains, `read_file` the
-- file that is opened by its name, `files` the errors when the image is written to a file, and
-- `help_text` what gettext makes of the text of `help`.
pub record World : Type 0 where
  pub gnulib : Gnulib
  pub iconv : Iconv
  pub memory : ℕ → ℕ
  pub qsort : List (List ℕ) → List (List ℕ)
  pub grants : ℕ → Bool
  pub read_file : List ℕ → Result FileImage
  pub files : Option (List ℕ) → Output
  pub help_text : List ℕ
  pub open_write : Bool
  pub is_tty : Bool

-- The variables of the shell, the bytes of its input that are still to be read, and what has been
-- printed.
pub record Shell : Type 0 where
  pub h : Option Hive
  pub loaded : Option (List ℕ)
  pub cwd : ℕ
  pub quit : Bool
  pub prompt : List ℕ
  pub input : List ℕ
  pub output : List ℕ

-- A command returns 0 or -1, or it calls `exit`, or the program is aborted.
pub data Turn (A : Type 0) : Type 0 where
  success : A → Shell → Turn A
  failure : Shell → Turn A
  leave : Turn A
  dies : Trap → Turn A

abbrev pub Act : Type 0 → Type 0
Act A = Shell → Turn A

module _ {A : Type 0} where
  abbrev pub pure : A → Act A
  pure a s = success a s

  -- A message is printed, and the command returns -1.
  abbrev pub fail : Act A
  fail s = failure s

  infixl 5 ◌>>=◌
  unfoldable pub ◌>>=◌ : {B : Type 0} → Act A → (A → Act B) → Act B
  ◌>>=◌ m f s = elim (m s) [
    | success a s' ↦ f a s'
    | failure s' ↦ failure s'
    | leave ↦ leave
    | dies t ↦ dies t
  ]

  abbrev pub gets : (Shell → A) → Act A
  gets f s = success (f s) s

  -- An operation of the library that reads.
  unfoldable pub ask : Read A → Act A
  ask r s = elim s.h [
    | none ↦ dies fault
    | some hive ↦ elim (r hive) [ ok a ↦ success a s | err e ↦ failure s | trap t ↦ dies t ]
  ]

  -- An operation of the library that writes.
  unfoldable pub run : Cmd A → Act A
  run m s = elim s.h [
    | none ↦ dies fault
    | some hive ↦ elim (m hive) [
      | done a h' ↦ success a (record s { h = some h' })
      | failed e h' ↦ failure (record s { h = some h' })
      | crash t ↦ dies t
    ]
  ]

infixl 5 ◌>>◌
abbrev pub ◌>>◌ : {B : Type 0} → Act (Unit {0}) → Act B → Act B
m >> k = m >>= λ _. k

abbrev pub modify : (Shell → Shell) → Act (Unit {0})
modify f s = success tt (f s)

abbrev pub require : Bool → Act (Unit {0})
require b s = if b then success tt s else failure s

abbrev pub assert : Bool → Act (Unit {0})
assert b s = if b then success tt s else dies abort

abbrev pub print : List ℕ → Act (Unit {0})
print xs = modify (λ s. record s { output = s.output ++ xs })
