-- ===== src/Shell/Main.antt =====
-- The other commands of sh/hivexsh.c, `dispatch` and the main loop.
use hivex.Base.{
  ℕ, zero, suc, Bool, true, not, ◌||◌, Option, none, some, List, [], ◌∷◌, ◌++◌, ◌==◌, if◌then◌else◌,
  length,
}
use hivex.Hive.{stuck}
use hivex.Node.{hivex_root, node_parent}
use hivex.OffsetList.{until_zero}
use hivex.Shell.Names.{
  named_add, named_cd, named_close, named_unload, named_commit, named_del, named_ls, named_lsval,
  named_setval, named_help, named_load, named_exit, named_q, named_quit,
}
use hivex.Children.{node_children}
use hivex.Value.{value_key}
use hivex.Values.{node_values, node_get_value}
use hivex.Open.{hivex_open}
use hivex.Commit.{hivex_commit}
use hivex.SetValues.{SetValue, node_set_values}
use hivex.DeleteChild.{node_delete_child}
use hivex.Shell.{
  World, Turn, success, failure, leave, dies, Act, pure, fail, ◌>>=◌, ◌>>◌, gets, ask, run, modify,
  require, print,
}
use hivex.Shell.Lines.{rl_gets}
use hivex.Shell.Text.{split_at, streq}
use hivex.Shell.Parse.{parse_value}
use hivex.Shell.Print.{show_value, show_key, show_data, default_key, puts_all}
use hivex.Shell.Cd.{or_zero}
use hivex.Shell.Command.{
  is_some, set_prompt_string, take_hive, basename, cmd_close, cmd_cd, cmd_add, names_of, read_line,
  expect, count_of,
}
use hivex.Shell.Text.{skip_while, trim_end}

module _ (w : World) where
  unfoldable pub cmd_load : List ℕ → Act (Unit {0})
  cmd_load hivefile = do
    require (not (streq hivefile []))
    take_hive (basename hivefile) (hivex_open w.grants w.open_write (w.read_file hivefile))

  -- Without a name the hive is written to its own file.
  unfoldable pub cmd_commit : List ℕ → Act (Unit {0})
  cmd_commit path = do
    written ← run (hivex_commit (w.files (if streq path [] then none else some path)) 0)
    pure tt

  unfoldable pub cmd_help : List ℕ → Act (Unit {0})
  cmd_help args = print w.help_text

  unfoldable pub cmd_ls : List ℕ → Act (Unit {0})
  cmd_ls args = do
    require (streq args [])
    cwd ← gets (λ s. s.cwd)
    children ← ask (node_children cwd)
    names ← ask (names_of (until_zero children))
    print (puts_all (w.qsort names))

  -- One line for each value; what has been printed before an error stays.
  unfoldable pub show_values : List ℕ → Act (Unit {0})
  show_values [] = pure tt
  show_values (value ∷ values) = do
    key ← ask (value_key value)
    print (show_key key)
    text ← ask (show_data w.iconv value)
    print (text ++ (10 ∷ []))
    show_values values

  unfoldable pub cmd_lsval : List ℕ → Act (Unit {0})
  cmd_lsval key = do
    cwd ← gets (λ s. s.cwd)
    if streq key []
        then (do values ← ask (node_values cwd); show_values (until_zero values))
        else (do
          value ← ask (or_zero (node_get_value cwd (default_key key)))
          require (not (value == 0))
          text ← ask (show_value w.iconv value)
          print text)

  unfoldable pub read_values : ℕ → Act (List SetValue)
  read_values zero = pure []
  read_values (suc n) = do
    key ← read_line
    line ← read_line
    (t, bytes) ← expect (parse_value w line)
    values ← read_values n
    pure (record { key = default_key key; t = t; value = bytes } ∷ values)

  unfoldable pub cmd_setval : List ℕ → Act (Unit {0})
  cmd_setval nrvals_str = do
    nrvals ← expect (count_of (w.gnulib.xstrtol nrvals_str))
    values ← read_values nrvals
    cwd ← gets (λ s. s.cwd)
    run (node_set_values cwd values)

  unfoldable pub cmd_del : List ℕ → Act (Unit {0})
  cmd_del args = do
    require (streq args [])
    cwd ← gets (λ s. s.cwd)
    root ← ask (or_zero hivex_root)
    require (not (cwd == root))
    new_cwd ← ask (or_zero (node_parent cwd))
    run (node_delete_child w.iconv cwd)
    modify (λ s. record s { cwd = new_cwd })
    set_prompt_string

  -- The commands that want a hive.
  unfoldable pub dispatch_loaded : List ℕ → List ℕ → Act (Unit {0})
  dispatch_loaded cmd args =
      if named_add cmd
      then cmd_add args
      else if named_cd cmd
      then cmd_cd args
      else if named_close cmd || named_unload cmd
      then cmd_close args
      else if named_commit cmd
      then cmd_commit args
      else if named_del cmd
      then cmd_del args
      else if named_ls cmd
      then cmd_ls args
      else if named_lsval cmd
      then cmd_lsval args
      else if named_setval cmd
      then cmd_setval args
      else fail

  unfoldable pub dispatch : List ℕ → List ℕ → Act (Unit {0})
  dispatch cmd args =
      if named_help cmd
      then cmd_help args
      else if named_load cmd
      then cmd_load args
      else if named_exit cmd || named_q cmd || named_quit cmd
      then modify (λ s. record s { quit = true })
      else (do h ← gets (λ s. s.h); require (is_some h); dispatch_loaded cmd args)

  abbrev is_blank : ℕ → Bool
  is_blank c = c == b' ' || c == 9

  -- The command and its arguments in a line; `none` for a blank line and a comment.
  unfoldable pub split_line : List ℕ → Option (List ℕ × List ℕ)
  split_line line = go (skip_while w.gnulib.c_isspace line)
    where
      arguments : List ℕ → List ℕ
      arguments [] = []
      arguments (c ∷ cs) = trim_end w.gnulib.c_isspace (skip_while is_blank cs)

      go : List ℕ → Option (List ℕ × List ℕ)
      go [] = none
      go (c ∷ cs) =
          if c == b'#' || is_blank c
          then none
          else (let r = split_at is_blank (c ∷ cs) in some (r.0, arguments r.1))

  -- What the main loop does after a command.
  unfoldable pub settle : Turn (Unit {0}) → Turn (Unit {0})
  settle (success u s) = success tt s
  settle (failure s) = if w.is_tty then success tt s else leave
  settle leave = leave
  settle (dies t) = dies t

  unfoldable pub run_line : List ℕ → Act (Unit {0})
  run_line line s = elim (split_line line) [
    | none ↦ success tt s
    | some r ↦ settle (dispatch (r.0) (r.1) s)
  ]

  -- The rest of the loop is `rest`.
  unfoldable pub take_line : Act (Unit {0}) → Option (List ℕ × List ℕ) → Act (Unit {0})
  take_line rest none s = success tt (record s { quit = true })
  take_line rest (some (line, bytes)) s = (do run_line line; rest) (record s { input = bytes })

  -- The main loop, for at most `fuel` rounds.
  unfoldable pub main_loop : ℕ → Act (Unit {0})
  main_loop zero s = dies stuck
  main_loop (suc fuel) s =
      if s.quit then success tt s else take_line (main_loop fuel) (rl_gets s.input) s

  -- Every round reads a byte at least.
  unfoldable pub main : Act (Unit {0})
  main s = main_loop (suc (length s.input)) s

  -- A hive named on the command line has to be loaded.
  unfoldable pub must_load : Turn (Unit {0}) → Turn (Unit {0})
  must_load (success u s) = success tt s
  must_load (failure s) = leave
  must_load leave = leave
  must_load (dies t) = dies t

  unfoldable pub load_first : Option (List ℕ) → Act (Unit {0})
  load_first none s = success tt s
  load_first (some hivefile) s = must_load (cmd_load hivefile s)

  -- `main`, from the file name on the command line, if there is one. It begins with no hive.
  unfoldable pub hivexsh : Option (List ℕ) → Act (Unit {0})
  hivexsh arg = do set_prompt_string; load_first arg; main
