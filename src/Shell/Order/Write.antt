-- ===== src/Shell/Order/Write.antt =====
-- The commands that load a hive or change it keep a shell in order.
use hivex.Base.{ℕ, zero, suc, ◌≤◌, ◌≡◌, refl, sym, arith, true, Option, none, some, List, length}
use mathlib.Core.Path.{subst}
use hivex.Hive.{Hive, Result, ok, err, trap, Cmd, Read, fault}
use hivex.Open.{hivex_open}
use hivex.Node.{hivex_root}
use hivex.Commit.{hivex_commit}
use hivex.AddChild.{node_add_child}
use hivex.SetValues.{SetValue, node_set_values}
use hivex.DeleteChild.{node_delete_child}
use hivex.Kept.Reach.{Call, Leaves, add_child, set_values, delete_child, commit}
use hivex.Shell.{World, Shell, success, failure, dies, Act, ◌>>=◌, ◌>>◌, ask, run, modify}
use hivex.Shell.Command.{set_prompt_string, take_hive, basename, cmd_add, read_line, expect}
use hivex.Shell.Cd.{or_zero}
use hivex.Shell.Main.{cmd_load, cmd_commit, read_values, cmd_setval, cmd_del}
use hivex.Shell.Order.Read.{enter_node}
use hivex.Shell.Lines.{rl_gets, rl_gets-shorter}
use hivex.Shell.Rule.{
  After, at_success, at_failure, at_dies, HasHive, bind-After, ask-After, require-After, gets-After,
  modify-After, run-After, run-Leaves, weaken,
}
use hivex.Shell.Order.{ready_again, InOrder, Closed, Orderly, set_prompt_string-Orderly}

module _ (F : Option Hive → Type 0) (n : ℕ) where
  module _ (c : Closed F) where
    -- After a call of the library.
    again :
        (s : Shell) (h h' : Hive)
        → InOrder F n s
        → s.h ≡ some h
        → Call h h'
        → InOrder F n (record s { h = some h' })
    again s h h' i p call = record {
      ready = ready_again s.h h h' s.loaded s.cwd p i.ready;
      unread = i.unread;
      hive = c.calls (subst F p i.hive) call;
    }

    run-Orderly :
        {A B : Type 0} (m : Cmd A) (f : A → Act B) (s : Shell)
        → InOrder F n s
        → ((h h' : Hive) → Leaves h' (m h) → Call h h')
        → ((h' : Hive) (a : A)
            → InOrder F n (record s { h = some h' })
            → Orderly F n (f a) (record s { h = some h' }))
        → Orderly F n (run m >>= f) s
    run-Orderly m f s i call rest =
        run-After m f s (λ h h' p l. again s h h' i p (call h h' l))
          λ h h' a p l. rest h' a (again s h h' i p (call h h' l))

    pub cmd_add-Orderly : (name : List ℕ) (s : Shell) → InOrder F n s → Orderly F n (cmd_add name) s
    unfolding cmd_add
    cmd_add-Orderly name s i = gets-After _ _ s (
        run-Orderly (node_add_child s.cwd (some name)) _ s i (λ h h' l. add_child s.cwd _ l)
          λ h' a i'. at_success i')

    module _ (w : World) where
      pub cmd_commit-Orderly :
          (path : List ℕ) (s : Shell) → InOrder F n s → Orderly F n (cmd_commit w path) s
      unfolding cmd_commit
      cmd_commit-Orderly path s i =
          run-Orderly (hivex_commit _ 0) _ s i (λ h h' l. commit _ 0 l) λ h' a i'. at_success i'

      pub cmd_del-Orderly :
          (args : List ℕ) (s : Shell) → InOrder F n s → Orderly F n (cmd_del w args) s
      unfolding cmd_del
      cmd_del-Orderly args s i = require-After _ _ s i λ bare. gets-After _ _ s (
          ask-After _ _ s i λ root has. require-After _ _ s i λ below.
            ask-After _ _ s i λ new_cwd has'.
              run-Orderly (node_delete_child w.iconv s.cwd) _ s i
                (λ h h' l. delete_child w.iconv s.cwd l)
                λ h' a i'. modify-After _ _ _ (
                  set_prompt_string-Orderly F n (record s { h = some h'; cwd = new_cwd }) tt
                    i'.unread i'.hive))

      expect-After :
          {A B : Type 0} (o : Option A) (f : A → Act B) (s : Shell)
          → InOrder F n s
          → ((a : A) → Orderly F n (f a) s)
          → Orderly F n (expect o >>= f) s
      unfolding expect ◌>>=◌
      expect-After none f s i rest = at_failure i
      expect-After (some a) f s i rest = rest a

      read_line-After :
          {B : Type 0} (f : List ℕ → Act B) (s : Shell)
          → InOrder F n s
          → ((line : List ℕ) (s' : Shell) → InOrder F n s' → Orderly F n (f line) s')
          → Orderly F n (read_line >>= f) s
      unfolding read_line
      read_line-After f s i rest =
          bind-After (λ line. InOrder F n) read_line f s (by_input (rl_gets s.input) refl) rest
        where
          by_input :
              (xs : Option (List ℕ × List ℕ))
              → rl_gets s.input ≡ xs
              → After
                  (λ line. InOrder F n)
                  (InOrder F n)
                  (elim xs [
                    | none ↦ failure (record s { quit = true })
                    | some r ↦ success (r.0) (record s { input = r.1 })
                  ])
          by_input none p = at_failure i
          by_input (some (line, bytes)) p = at_success (record {
            ready = i.ready;
            unread = omega (arith, rl_gets-shorter s.input line bytes p, i.unread);
            hive = i.hive;
          })

      read_values-Orderly : (k : ℕ) (s : Shell) → InOrder F n s → Orderly F n (read_values w k) s
      unfolding read_values
      read_values-Orderly zero s i = at_success i
      read_values-Orderly (suc k) s i = read_line-After _ s i λ key s1 i1.
          read_line-After _ s1 i1 λ line s2 i2. expect-After _ _ s2 i2 λ (t, bytes).
            bind-After _ (read_values w k) _ s2 (read_values-Orderly k s2 i2)
              λ values s3 i3. at_success i3

      pub cmd_setval-Orderly :
          (nrvals_str : List ℕ) (s : Shell)
          → InOrder F n s
          → Orderly F n (cmd_setval w nrvals_str) s
      unfolding cmd_setval
      cmd_setval-Orderly nrvals_str s i = expect-After _ _ s i λ nrvals.
          bind-After _ (read_values w nrvals) _ s (read_values-Orderly nrvals s i) λ values s1 i1.
            gets-After _ _ s1 (
              weaken
                (run-Leaves (node_set_values s1.cwd values) s1
                  (λ h h' p l. set_again s1 values i1 h h' p l))
                λ u s2 (h, h', p, l, same).
                  subst (InOrder F n) (sym same) (set_again s1 values i1 h h' p l))
        where
          set_again :
              (s1 : Shell) (values : List SetValue)
              → InOrder F n s1
              → (h h' : Hive) → s1.h ≡ some h
              → Leaves h' (node_set_values s1.cwd values h)
              → InOrder F n (record s1 { h = some h' })
          set_again s1 values i1 h h' p l = again s1 h h' i1 p (set_values s1.cwd values l)

  -- `or_zero` does not fail.
  or_zero-HasHive :
      (E : Shell → Type 0) (r : Read ℕ) (s : Shell)
      → After (λ a s'. (s' ≡ s) × HasHive s.h) E (ask (or_zero r) s)
  unfolding ask or_zero
  or_zero-HasHive E r s = by_hive s.h
    where
      by_hive :
          (o : Option Hive)
          → After
              (λ a s'. (s' ≡ s) × HasHive o)
              E
              (elim o [
                | none ↦ dies fault
                | some hive ↦ elim (or_zero r hive) [
                  | ok a ↦ success a s
                  | err y ↦ failure s
                  | trap t ↦ dies t
                ]
              ])
      by_hive none = at_dies
      by_hive (some hive) = by_result (r hive)
        where
          by_result :
              (x : Result ℕ)
              → After
                  (λ a s'. (s' ≡ s) × Unit {0})
                  E
                  (elim (elim x as (λ x'. Result ℕ) [
                    | ok k ↦ ok k
                    | err e ↦ ok 0
                    | trap t ↦ trap t
                  ]) [ ok a ↦ success a s | err y ↦ failure s | trap t ↦ dies t ])
          by_result (ok k) = at_success (refl, tt)
          by_result (err e) = at_success (refl, tt)
          by_result (trap t) = at_dies

  from_root :
      (s : Shell)
      → length s.input ≤ n
      → F s.h
      → Orderly F n
          (do
            cwd ← ask (or_zero hivex_root)
            modify (λ s'. record s' { cwd = cwd })
            set_prompt_string)
          s
  from_root s unread hive =
      bind-After _ (ask (or_zero hivex_root)) _ s (or_zero-HasHive (InOrder F n) hivex_root s)
        λ cwd s' (same, has).
          subst (Orderly F n (modify (λ z. record z { cwd = cwd }) >> set_prompt_string)) (sym same)
            (enter_node F n s cwd has unread hive)

  -- `opened`: what is asked of every hive that is opened.
  pub take_hive-Orderly :
      (name : List ℕ) (r : Result Hive) (s : Shell)
      → F none
      → ((h : Hive) → r ≡ ok h → F (some h))
      → length s.input ≤ n
      → Orderly F n (take_hive name r) s
  unfolding take_hive
  take_hive-Orderly name (trap t) s closed opened unread = at_dies
  take_hive-Orderly name (err e) s closed opened unread =
      at_failure (record { ready = refl; unread = unread; hive = closed })
  take_hive-Orderly name (ok h) s closed opened unread = from_root _ unread (opened h refl)

module _ (F : Option Hive → Type 0) (n : ℕ) (w : World) where
  -- Every hive that can be opened satisfies `F`.
  abbrev pub Opens : Type 0
  Opens =
      (name : List ℕ) (h : Hive)
      → hivex_open w.grants w.open_write (w.read_file name) ≡ ok h
      → F (some h)

  pub cmd_load-Orderly :
      Closed F
      → Opens
      → (hivefile : List ℕ) (s : Shell) → InOrder F n s
      → Orderly F n (cmd_load w hivefile) s
  unfolding cmd_load
  cmd_load-Orderly c opens hivefile s i =
      require-After _ _ s i
        λ given. take_hive-Orderly F n (basename hivefile) _ s c.closed (opens hivefile) i.unread
