-- ===== src/Shell/Order/Line.antt =====
-- Every line that the shell runs keeps it in order.
use hivex.Base.{ℕ, Bool, true, false, ◌||◌, Option, none, some, List, if◌then◌else◌}
use hivex.Hive.{Hive}
use hivex.Shell.Names.{
  named_add, named_cd, named_close, named_unload, named_commit, named_del, named_ls, named_lsval,
  named_setval, named_help, named_load, named_exit, named_q, named_quit,
}
use hivex.Shell.{World, Shell, Turn, success, failure, leave, dies, Act}
use hivex.Shell.Main.{dispatch_loaded, dispatch, split_line, settle, run_line}
use hivex.Shell.Rule.{After, at_success, at_failure, at_leave, at_dies, require-After, gets-After}
use hivex.Shell.Order.{InOrder, Closed, Orderly}
use hivex.Shell.Order.Read.{
  cmd_cd-Orderly, cmd_close-Orderly, cmd_help-Orderly, cmd_ls-Orderly, cmd_lsval-Orderly,
}
use hivex.Shell.Order.Write.{
  cmd_add-Orderly, cmd_commit-Orderly, cmd_del-Orderly, cmd_setval-Orderly, cmd_load-Orderly, Opens,
}

module _ (F : Option Hive → Type 0) (w : World) (c : Closed F) where
  -- A command that keeps every shell in order.
  abbrev Tidy : ℕ → Act (Unit {0}) → Type 0
  Tidy n m = (s : Shell) → InOrder F n s → Orderly F n m s

  if-Tidy :
      (n : ℕ) (b : Bool) {m k : Act (Unit {0})} → Tidy n m → Tidy n k → Tidy n (if b then m else k)
  if-Tidy n true p q = p
  if-Tidy n false p q = q

  pub dispatch_loaded-Orderly :
      (n : ℕ) (cmd args : List ℕ) (s : Shell)
      → InOrder F n s
      → Orderly F n (dispatch_loaded w cmd args) s
  unfolding dispatch_loaded
  dispatch_loaded-Orderly n cmd args = if-Tidy n (named_add cmd) (cmd_add-Orderly F n c args) (
      if-Tidy n (named_cd cmd) (cmd_cd-Orderly F n args) (
        if-Tidy n (named_close cmd || named_unload cmd) (cmd_close-Orderly F n c args) (
          if-Tidy n (named_commit cmd) (cmd_commit-Orderly F n c w args) (
            if-Tidy n (named_del cmd) (cmd_del-Orderly F n c w args) (
              if-Tidy n (named_ls cmd) (cmd_ls-Orderly F n w args) (
                if-Tidy n (named_lsval cmd) (cmd_lsval-Orderly F n w args) (
                  if-Tidy n (named_setval cmd) (cmd_setval-Orderly F n c w args)
                    λ s i. at_failure i)))))))

  module _ (opens : (n : ℕ) → Opens F n w) where
    dispatch-Orderly :
        (n : ℕ) (cmd args : List ℕ) (s : Shell)
        → InOrder F n s
        → Orderly F n (dispatch w cmd args) s
    unfolding dispatch
    dispatch-Orderly n cmd args = if-Tidy n (named_help cmd) (cmd_help-Orderly F n w args) (
        if-Tidy n (named_load cmd) (cmd_load-Orderly F n w c (opens n) args) (
          if-Tidy n (named_exit cmd || named_q cmd || named_quit cmd) (λ s i. at_success i)
            λ s i.
              gets-After _ _ s
                (require-After _ _ s i λ has. dispatch_loaded-Orderly n cmd args s i)))

    settle-After :
        (n : ℕ) (r : Turn (Unit {0}))
        → After (λ u. InOrder F n) (InOrder F n) r
        → After (λ u. InOrder F n) (λ s. ⊥) (settle w r)
    unfolding settle
    settle-After n (success u s) (at_success i) = at_success i
    settle-After n (failure s) (at_failure i) = by_tty w.is_tty
      where
        by_tty : (b : Bool) → After (λ u. InOrder F n) (λ s. ⊥) (if b then success tt s else leave)
        by_tty true = at_success i
        by_tty false = at_leave
    settle-After n leave at_leave = at_leave
    settle-After n (dies t) at_dies = at_dies

    pub run_line-InOrder :
        (n : ℕ) (line : List ℕ) (s : Shell)
        → InOrder F n s
        → After (λ u. InOrder F n) (λ s. ⊥) (run_line w line s)
    unfolding run_line
    run_line-InOrder n line s i = by_words (split_line w line)
      where
        by_words :
            (o : Option (List ℕ × List ℕ))
            → After
                (λ u. InOrder F n)
                (λ s. ⊥)
                (elim o [ none ↦ success tt s | some r ↦ settle w (dispatch w (r.0) (r.1) s) ])
        by_words none = at_success i
        by_words (some (cmd, args)) = settle-After n _ (dispatch-Orderly n cmd args s i)
