-- ===== src/Shell/Order/Read.antt =====
-- The commands that only read the hive, or replace it, keep a shell in order.
use hivex.Base.{ℕ, ◌≤◌, refl, Option, none, some, List, [], ◌∷◌, ◌==◌, length}
use hivex.Hive.{Hive}
use hivex.Shell.{World, Shell, ◌>>◌, modify}
use hivex.Shell.Text.{streq}
use hivex.Shell.Command.{set_prompt_string, cmd_close, move_to, cmd_cd}
use hivex.Shell.Main.{cmd_help, cmd_ls, show_values, cmd_lsval}
use hivex.Shell.Rule.{
  at_success, at_failure, HasHive, ask-After, require-After, gets-After, modify-After, if-After,
}
use hivex.Shell.Order.{weak-HasHive, InOrder, Closed, Orderly, set_prompt_string-Orderly}

module _ (F : Option Hive → Type 0) (n : ℕ) where
  -- A node to go to, when there is a hive.
  pub enter_node :
      (s : Shell) (cwd : ℕ)
      → HasHive s.h
      → length s.input ≤ n
      → F s.h
      → Orderly F n (do modify (λ s'. record s' { cwd = cwd }); set_prompt_string) s
  enter_node s cwd has unread hive = modify-After _ _ s (
      set_prompt_string-Orderly F n (record s { cwd = cwd }) (weak-HasHive s.h s.loaded cwd has)
        unread hive)

  move_to-Orderly :
      (found : Option ℕ) (s : Shell) → HasHive s.h → InOrder F n s → Orderly F n (move_to found) s
  unfolding move_to
  move_to-Orderly none s has i = at_failure i
  move_to-Orderly (some new_cwd) s has i =
      gets-After _ _ s (
        if-After (new_cwd == s.cwd) _ _ s (at_success i) (enter_node s new_cwd has i.unread i.hive))

  pub cmd_cd-Orderly : (path : List ℕ) (s : Shell) → InOrder F n s → Orderly F n (cmd_cd path) s
  unfolding cmd_cd
  cmd_cd-Orderly path s i = gets-After _ _ s (
      if-After (streq path []) _ _ s (ask-After _ _ s i λ text has. at_success i) (
        require-After _ _ s i λ single.
          ask-After _ _ s i
            λ root has. ask-After _ _ s i λ found has'. move_to-Orderly found s has' i))

  pub cmd_close-Orderly :
      Closed F → (args : List ℕ) (s : Shell) → InOrder F n s → Orderly F n (cmd_close args) s
  unfolding cmd_close
  cmd_close-Orderly c args s i = require-After _ _ s i λ bare. modify-After _ _ s (
      set_prompt_string-Orderly F n (record s { h = none; loaded = none; cwd = 0 }) refl i.unread
        c.closed)

  module _ (w : World) where
    pub cmd_help-Orderly :
        (args : List ℕ) (s : Shell) → InOrder F n s → Orderly F n (cmd_help w args) s
    unfolding cmd_help
    cmd_help-Orderly args s i = at_success i

    pub cmd_ls-Orderly : (args : List ℕ) (s : Shell) → InOrder F n s → Orderly F n (cmd_ls w args) s
    unfolding cmd_ls
    cmd_ls-Orderly args s i = require-After _ _ s i λ bare.
        gets-After _ _ s
          (ask-After _ _ s i λ children has. ask-After _ _ s i λ names has'. at_success i)

    show_values-Orderly :
        (values : List ℕ) (s : Shell) → InOrder F n s → Orderly F n (show_values w values) s
    unfolding show_values
    show_values-Orderly [] s i = at_success i
    show_values-Orderly (v ∷ vs) s i = ask-After _ _ s i λ key has.
        modify-After _ _ s
          (ask-After _ _ _ i λ text has'. modify-After _ _ _ (show_values-Orderly vs _ i))

    pub cmd_lsval-Orderly :
        (key : List ℕ) (s : Shell) → InOrder F n s → Orderly F n (cmd_lsval w key) s
    unfolding cmd_lsval
    cmd_lsval-Orderly key s i = gets-After _ _ s (
        if-After (streq key []) _ _ s (ask-After _ _ s i λ values has. show_values-Orderly _ s i) (
          ask-After _ _ s i λ value has.
            require-After _ _ s i λ found. ask-After _ _ s i λ text has'. at_success i))
