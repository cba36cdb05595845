-- ===== src/Shell/Order.antt =====
-- A shell in order: its variables fit together, and its hive satisfies what the caller asks for.
pub mod Follow
pub mod Line
pub mod Session
pub mod Read
pub mod Write
use hivex.Base.{
  ℕ, ◌≤◌, ◌≡◌, refl, sym, arith, Bool, true, false, not, Option, none, some, List, [], ◌∷◌, ◌==◌,
  length, if◌then◌else◌,
}
use mathlib.Core.Path.{subst}
use hivex.Hive.{Hive, Result, ok, err, trap}
use hivex.Kept.Reach.{Call}
use hivex.Shell.{
  World, Shell, Turn, success, failure, leave, dies, Act, ◌>>=◌, ◌>>◌, ask, modify, assert,
}
use hivex.Shell.Command.{is_some, path_prompt, set_prompt_string}
use hivex.Shell.Cd.{or_zero, full_path}
use hivex.Shell.Rule.{
  After, at_success, at_failure, at_leave, at_dies, HasHive, bind-After, ask-After, assert-After,
  gets-After, modify-After,
}

-- Without a hive there is no name and no current node, and with one there are both.
abbrev pub ReadyAt : Option Hive → Option (List ℕ) → ℕ → Type 0
ReadyAt none none cwd = cwd ≡ 0
ReadyAt none (some name) cwd = ⊥
ReadyAt (some h) none cwd = ⊥
ReadyAt (some h) (some name) cwd = (cwd == 0) ≡ false

-- The same, if there is no hive.
abbrev pub WeakAt : Option Hive → Option (List ℕ) → ℕ → Type 0
WeakAt none loaded cwd = ReadyAt none loaded cwd
WeakAt (some h) loaded cwd = Unit {0}

-- At most `n` lines are still to be read, and `F` holds of the hive.
pub record Fits (F : Option Hive → Type 0) (n : ℕ) (h : Option Hive) (loaded : Option (List ℕ))
    (cwd : ℕ) (input : List ℕ) : Type 0 where
  pub ready : ReadyAt h loaded cwd
  pub unread : length input ≤ n
  pub hive : F h

abbrev pub InOrder : (Option Hive → Type 0) → ℕ → Shell → Type 0
InOrder F n s = Fits F n s.h s.loaded s.cwd s.input

-- `F` holds without a hive, and every call that may write keeps it.
pub record Closed (F : Option Hive → Type 0) : Type 0 where
  pub closed : F none
  pub calls : {h h' : Hive} → F (some h) → Call h h' → F (some h')

pub weak-HasHive : (o : Option Hive) (l : Option (List ℕ)) (cwd : ℕ) → HasHive o → WeakAt o l cwd
weak-HasHive none l cwd has = absurd has
weak-HasHive (some h) l cwd has = tt

ready-HasHive :
    (o : Option Hive) (l : Option (List ℕ)) (cwd : ℕ)
    → HasHive o
    → is_some l ≡ true
    → not (cwd == 0) ≡ true
    → ReadyAt o l cwd
ready-HasHive none l cwd has p q = absurd has
ready-HasHive (some h) none cwd has p q = cc
ready-HasHive (some h) (some name) cwd has p q = ground (arith, q)

weak_none :
    (o : Option Hive) (l : Option (List ℕ)) (cwd : ℕ) → o ≡ none → WeakAt o l cwd → ReadyAt o l cwd
weak_none none l cwd p w = w
weak_none (some h) l cwd p w = absurd (ground arith)

-- Another hive in the place of the first.
pub ready_again :
    (o : Option Hive) (h h' : Hive) (l : Option (List ℕ)) (cwd : ℕ)
    → o ≡ some h
    → ReadyAt o l cwd
    → ReadyAt (some h') l cwd
ready_again none h h' l cwd p r = absurd (ground arith)
ready_again (some g) h h' none cwd p r = r
ready_again (some g) h h' (some name) cwd p r = r

module _ (F : Option Hive → Type 0) (n : ℕ) where
  -- A command that ends in order.
  abbrev pub Orderly : {A : Type 0} → Act A → Shell → Type 0
  Orderly m s = After (λ a. InOrder F n) (InOrder F n) (m s)

  path_prompt-Orderly :
      (s : Shell) (h : Hive) → s.h ≡ some h → length s.input ≤ n → F s.h → Orderly path_prompt s
  unfolding path_prompt
  path_prompt-Orderly s h has unread hive = gets-After _ _ s (
      gets-After _ _ s (
        assert-After _ _ s λ named. assert-After _ _ s λ placed.
          let order = in_order named placed in ask-After _ _ s order λ path has2. at_success order))
    where
      in_order : is_some s.loaded ≡ true → not (s.cwd == 0) ≡ true → InOrder F n s
      in_order named placed = record {
        ready = ready-HasHive s.h s.loaded s.cwd (subst HasHive (sym has) tt) named placed;
        unread = unread;
        hive = hive;
      }

  -- The assertions of `set_prompt_string` are what makes a shell with a hive ready.
  pub set_prompt_string-Orderly :
      (s : Shell)
      → WeakAt s.h s.loaded s.cwd
      → length s.input ≤ n
      → F s.h
      → Orderly set_prompt_string s
  unfolding set_prompt_string
  set_prompt_string-Orderly s weak unread hive = by_hive s.h refl
    where
      by_hive :
          (o : Option Hive)
          → s.h ≡ o
          → After
              (λ u. InOrder F n)
              (InOrder F n)
              (elim o [
                | none ↦ success tt (record s { prompt = b'>' ∷ b' ' ∷ [] })
                | some h ↦ path_prompt s
              ])
      by_hive none p =
          at_success
            (record { ready = weak_none s.h s.loaded s.cwd p weak; unread = unread; hive = hive })
      by_hive (some h) p = path_prompt-Orderly s h p unread hive
