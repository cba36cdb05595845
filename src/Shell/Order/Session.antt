-- ===== src/Shell/Order/Session.antt =====
-- The main loop of the shell.
use hivex.Base.{
  ℕ, zero, suc, ◌≤◌, ◌<◌, ◌≡◌, refl, sym, ap, ◌∙◌, arith, Bool, true, false, Option, none, some,
  List, [], ◌∷◌, length, if◌then◌else◌,
}
use mathlib.Core.Path.{subst, subst₃}
use hivex.Hive.{Hive}
use hivex.Shell.{World, Shell, Turn, success, failure, leave, dies, Act, ◌>>=◌}
use hivex.Shell.Main.{run_line, take_line, main_loop, main, must_load, load_first, hivexsh}
use hivex.Shell.Command.{path_prompt, set_prompt_string}
use hivex.Open.Flag.{hivex_open-writable}
use hivex.Kept.Reach.{Call-Kept}
use hivex.Shell.Lines.{rl_gets, rl_gets-shorter}
use hivex.Shell.Rule.{After, at_success, at_failure, at_leave, at_dies, bind-After}
use hivex.Shell.Order.{ReadyAt, InOrder, Closed}
use hivex.Shell.Order.Write.{Opens, cmd_load-Orderly}
use hivex.Shell.Order.Line.{run_line-InOrder}

-- How the main loop ends, when it returns.
pub record IsEnd (F : Option Hive → Type 0) (n : ℕ) (s : Shell) : Type 0 where
  pub order : InOrder F n s
  pub quit : s.quit ≡ true

-- Two continuations that agree on what a command may leave.
same_turn :
    {A B : Type 0} {P : A → Shell → Type 0} (f g : A → Act B) {r : Turn A}
    → After P (λ s. ⊥) r
    → ((a : A) (s : Shell) → P a s → f a s ≡ g a s)
    → (elim r as (λ r'. Turn B) [
      | success a s ↦ f a s
      | failure s ↦ failure s
      | leave ↦ leave
      | dies t ↦ dies t
    ])
      ≡ (elim r as (λ r'. Turn B) [
        | success a s ↦ g a s
        | failure s ↦ failure s
        | leave ↦ leave
        | dies t ↦ dies t
      ])
same_turn f g (at_success p) e = e _ _ p
same_turn f g (at_failure bot) e = absurd bot
same_turn f g at_leave e = refl
same_turn f g at_dies e = refl

-- At most `n` rounds of the main loop, and then whatever `otherwise` does.
unfoldable pub rounds : World → Act (Unit {0}) → ℕ → Act (Unit {0})
rounds w otherwise zero s = otherwise s
rounds w otherwise (suc n) s =
    if s.quit then success tt s else take_line w (rounds w otherwise n) (rl_gets s.input) s

module _ (F : Option Hive → Type 0) (w : World) (c : Closed F) (opens : (n : ℕ) → Opens F n w) where
  -- What is left of the input is to be read.
  next_line :
      (n : ℕ) (s : Shell) (bytes : List ℕ)
      → InOrder F n s
      → InOrder F (length bytes) (record s { input = bytes })
  next_line n s bytes i = record { ready = i.ready; unread = omega arith; hive = i.hive }

  wider : (m n : ℕ) (s : Shell) → m ≤ n → InOrder F m s → InOrder F n s
  wider m n s le i = record { ready = i.ready; unread = omega (arith, i.unread); hive = i.hive }

  abbrev Ends : Act (Unit {0}) → ℕ → Shell → Type 0
  Ends m n s = After (λ u. IsEnd F n) (λ s'. ⊥) (m s)

  take_line-IsEnd :
      (rest : Act (Unit {0})) (n : ℕ) (xs : Option (List ℕ × List ℕ)) (s : Shell)
      → InOrder F n s
      → rl_gets s.input ≡ xs
      → ((s' : Shell) → InOrder F n s' → Ends rest n s')
      → Ends (take_line w rest xs) n s
  unfolding take_line
  take_line-IsEnd rest n none s i p go = at_success (record { order = i; quit = refl })
  take_line-IsEnd rest n (some (line, bytes)) s i p go =
      bind-After _ (run_line w line) _ (record s { input = bytes })
        (run_line-InOrder F w c opens n line (record s { input = bytes })
          (wider (length bytes) n (record s { input = bytes })
            (omega (arith, rl_gets-shorter s.input line bytes p, i.unread))
            (next_line n s bytes i)))
        λ u s' i'. go s' i'

  by_quit :
      (rest : Act (Unit {0})) (n : ℕ) (s : Shell) (b : Bool)
      → s.quit ≡ b
      → InOrder F n s
      → Ends rest n s
      → Ends (λ s'. if b then success tt s' else rest s') n s
  by_quit rest n s true p i go = at_success (record { order = i; quit = p })
  by_quit rest n s false p i go = go

  pub main_loop-IsEnd : (fuel n : ℕ) (s : Shell) → InOrder F n s → Ends (main_loop w fuel) n s
  unfolding main_loop
  main_loop-IsEnd zero n s i = at_dies
  main_loop-IsEnd (suc fuel) n s i =
      by_quit (take_line w (main_loop w fuel) (rl_gets s.input)) n s s.quit refl i
        (take_line-IsEnd (main_loop w fuel) n (rl_gets s.input) s i refl (main_loop-IsEnd fuel n))

  take_line-same :
      (f g : Act (Unit {0})) (xs : Option (List ℕ × List ℕ)) (s : Shell)
      → InOrder F (length s.input) s
      → rl_gets s.input ≡ xs
      → ((s' : Shell)
          → length s'.input < length s.input
          → InOrder F (length s'.input) s'
          → f s' ≡ g s')
      → take_line w f xs s ≡ take_line w g xs s
  unfolding take_line ◌>>=◌
  take_line-same f g none s i p same = refl
  take_line-same f g (some (line, bytes)) s i p same =
      same_turn (λ u. f) (λ u. g)
        (run_line-InOrder F w c opens (length bytes) line _ (next_line (length s.input) s bytes i))
        λ u s' i'.
          same s' (omega (arith, i'.unread, rl_gets-shorter s.input line bytes p))
            (record { ready = i'.ready; unread = omega arith; hive = i'.hive })

  -- With more fuel than there are bytes, it does not matter what happens when it is used up.
  main_loop-fuel :
      (otherwise : Act (Unit {0})) (fuel more : ℕ) (s : Shell)
      → InOrder F (length s.input) s
      → length s.input < fuel
      → length s.input < more
      → main_loop w fuel s ≡ rounds w otherwise more s
  unfolding main_loop rounds
  main_loop-fuel otherwise zero more s i p q = absurd (omega arith)
  main_loop-fuel otherwise (suc fuel) zero s i p q = absurd (omega arith)
  main_loop-fuel otherwise (suc fuel) (suc more) s i p q =
      ap (λ (z : Turn (Unit {0})). if s.quit then success tt s else z)
        (take_line-same (main_loop w fuel) (rounds w otherwise more) (rl_gets s.input) s i refl
          λ s' shorter i'. main_loop-fuel otherwise fuel more s' i' (omega arith) (omega arith))

  -- Without a hive the prompt is always set.
  first_prompt :
      (n : ℕ) (s : Shell)
      → InOrder F n s
      → s.h ≡ none
      → After (λ u. InOrder F n) (λ s'. ⊥) (set_prompt_string s)
  unfolding set_prompt_string
  first_prompt n s i no_hive = go s.h no_hive
    where
      go :
          (o : Option Hive)
          → o ≡ none
          → After
              (λ u. InOrder F n)
              (λ s'. ⊥)
              (elim o [
                | none ↦ success tt (record s { prompt = b'>' ∷ b' ' ∷ [] })
                | some h ↦ path_prompt s
              ])
      go none e = at_success i
      go (some h) e = absurd (ground arith)

  load_first-InOrder :
      (n : ℕ) (arg : Option (List ℕ)) (s : Shell)
      → InOrder F n s
      → After (λ u. InOrder F n) (λ s'. ⊥) (load_first w arg s)
  unfolding load_first must_load
  load_first-InOrder n none s i = at_success i
  load_first-InOrder n (some name) s i = go (cmd_load-Orderly F n w c (opens n) name s i)
    where
      go :
          {r : Turn (Unit {0})}
          → After (λ u. InOrder F n) (InOrder F n) r
          → After (λ u. InOrder F n) (λ s'. ⊥) (must_load w r)
      go (at_success i') = at_success i'
      go (at_failure i') = at_leave
      go at_leave = at_leave
      go at_dies = at_dies

  main-IsEnd : (n : ℕ) (s : Shell) → InOrder F n s → Ends (main w) n s
  unfolding main
  main-IsEnd n s i = main_loop-IsEnd (suc (length s.input)) n s i

  session-IsEnd :
      (n : ℕ) (arg : Option (List ℕ)) (s : Shell)
      → InOrder F n s
      → s.h ≡ none
      → Ends (hivexsh w arg) n s
  unfolding hivexsh
  session-IsEnd n arg s i no_hive =
      bind-After _ set_prompt_string _ s (first_prompt n s i no_hive) λ u s1 i1.
        bind-After _ (load_first w arg) _ s1 (load_first-InOrder n arg s1 i1)
          λ u' s2 i2. main-IsEnd n s2 i2

-- A hive has the flag with which it was opened.
abbrev pub OpenedAs : Bool → Option Hive → Type 0
OpenedAs b none = Unit {0}
OpenedAs b (some h) = h.writable ≡ b

OpenedAs-Closed : (b : Bool) → Closed (OpenedAs b)
OpenedAs-Closed b = record { closed = tt; calls = λ e call. (Call-Kept call).writable ∙ e }

OpenedAs-Opens : (w : World) (n : ℕ) → Opens (OpenedAs w.open_write) n w
OpenedAs-Opens w n name h e = hivex_open-writable w.grants w.open_write (w.read_file name) h e

-- A session of the shell that begins without a hive, with or without a file on the command line,
-- and reads any input, returns only after the flag `quit` has been set: an error ends it by
-- `exit`. Then there is no hive, no name and no current node, or there are all three; a hive
-- still has the flag for writing that the shell was started with.
pub hivexsh-IsEnd :
    (w : World) (arg : Option (List ℕ)) (s : Shell)
    → s.h ≡ none
    → s.loaded ≡ none
    → s.cwd ≡ 0
    → After (λ u. IsEnd (OpenedAs w.open_write) (length s.input)) (λ s'. ⊥) (hivexsh w arg s)
hivexsh-IsEnd w arg s no_hive no_name no_node =
    session-IsEnd (OpenedAs w.open_write) w (OpenedAs-Closed w.open_write) (OpenedAs-Opens w)
      (length s.input) arg s
      (record {
        ready = subst₃ ReadyAt (sym no_hive) (sym no_name) (sym no_node) refl;
        unread = omega arith;
        hive = subst (OpenedAs w.open_write) (sym no_hive) tt;
      })
      no_hive

-- The main loop ends after as many rounds as there are bytes to be read, and one: if that many are
-- allowed, or more, it is `main`, whatever happens when they are used up. The shell has to be in order
-- at first, as it is at the start of a session.
pub main-rounds :
    (w : World) (otherwise : Act (Unit {0})) (n : ℕ) (s : Shell)
    → ReadyAt s.h s.loaded s.cwd
    → length s.input < n
    → main w s ≡ rounds w otherwise n s
unfolding main
main-rounds w otherwise n s ready enough =
    main_loop-fuel (λ h. Unit {0}) w (record { closed = tt; calls = λ f call. tt })
      (λ n name h e. tt) otherwise (suc (length s.input)) n s
      (record { ready = ready; unread = omega arith; hive = tt }) (omega arith) enough
