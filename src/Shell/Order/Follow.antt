-- ===== src/Shell/Order/Follow.antt =====
-- What a command does to the hive is what calls of the library do to it.
use hivex.Base.{ℕ, ◌≡◌, arith, Option, none, some, List, length}
use mathlib.Core.Path.{subst}
use hivex.Hive.{Hive}
use hivex.Kept.Reach.{Reach, here, then_call}
use hivex.Shell.{World, Shell}
use hivex.Shell.Main.{dispatch_loaded}
use hivex.Shell.Rule.{After}
use hivex.Shell.Order.{ReadyAt, InOrder, Closed}
use hivex.Shell.Order.Line.{dispatch_loaded-Orderly}

-- There is no hive any more, or one that a sequence of calls leads to.
abbrev pub Follows : Hive → Option Hive → Type 0
Follows h none = Unit {0}
Follows h (some h') = Reach h h'

Follows-Closed : (h : Hive) → Closed (Follows h)
Follows-Closed h = record { closed = tt; calls = λ r call. then_call r call }

start_at : (h : Hive) (o : Option Hive) → o ≡ some h → Follows h o
start_at h none e = tt
start_at h (some g) e = let same : h ≡ g = cc in subst (Reach h) same here

module _ (w : World) (cmd args : List ℕ) (s : Shell) (h : Hive) (has : s.h ≡ some h)
    (ready : ReadyAt s.h s.loaded s.cwd) where
  -- A command other than `help`, `load` and those that quit, given to a shell in order that has a
  -- hive, returns a shell that is in order, with no more bytes to read than before. The hive, if
  -- there still is one, has come from the one before by a sequence of calls of the library's
  -- functions that add a child, delete one, set values or commit, each of which returned.
  pub dispatch_loaded-Follows :
      After
        (λ u. InOrder (Follows h) (length s.input))
        (InOrder (Follows h) (length s.input))
        (dispatch_loaded w cmd args s)
  dispatch_loaded-Follows =
      dispatch_loaded-Orderly (Follows h) w (Follows-Closed h) (length s.input) cmd args s
        (record { ready = ready; unread = omega arith; hive = start_at h s.h has })
