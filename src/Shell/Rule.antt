-- ===== src/Shell/Rule.antt =====
-- What holds when a command of the shell returns: rules for each way to build a command.
use hivex.Base.{◌≡◌, refl, sym, Bool, true, false, Option, none, some, if◌then◌else◌}
use hivex.Hive.{Hive, Trap, fault, Result, ok, err, trap, Outcome, done, failed, crash, Read, Cmd}
use mathlib.Core.Path.{subst}
use hivex.Kept.Reach.{Leaves, left_done, left_failed}
use hivex.Shell.{
  Shell, Turn, success, failure, leave, dies, Act, ◌>>=◌, gets, ask, run, require, assert, modify,
  ◌>>◌,
}

-- `P` holds after success and `E` after an error. Nothing is said of a shell that has exited.
pub data After {A : Type 0} (P : A → Shell → Type 0) (E : Shell → Type 0) : Turn A → Type 0 where
  at_success : {a : A} {s : Shell} → P a s → After P E (success a s)
  at_failure : {s : Shell} → E s → After P E (failure s)
  at_leave : After P E leave
  at_dies : {t : Trap} → After P E (dies t)

-- The shell has a hive.
abbrev pub HasHive : Option Hive → Type 0
HasHive none = ⊥
HasHive (some h) = Unit {0}

-- The second shell has the hive that the command leaves of the first one's.
abbrev pub Ran : {A : Type 0} → Cmd A → Shell → Shell → Type 0
Ran m s s' =
    (h : Hive) × (h' : Hive) × (s.h ≡ some h) × Leaves h' (m h) × (s' ≡ record s { h = some h' })

pub weaken_both :
    {A : Type 0} {P Q : A → Shell → Type 0} {E G : Shell → Type 0} {r : Turn A}
    → After P E r
    → ((a : A) (s : Shell) → P a s → Q a s)
    → ((s : Shell) → E s → G s)
    → After Q G r
weaken_both (at_success p) f g = at_success (f _ _ p)
weaken_both (at_failure e) f g = at_failure (g _ e)
weaken_both at_leave f g = at_leave
weaken_both at_dies f g = at_dies

module _ {E : Shell → Type 0} where
  pub weaken :
      {A : Type 0} {P Q : A → Shell → Type 0} {r : Turn A}
      → After P E r
      → ((a : A) (s : Shell) → P a s → Q a s)
      → After Q E r
  weaken (at_success p) f = at_success (f _ _ p)
  weaken (at_failure e) f = at_failure e
  weaken at_leave f = at_leave
  weaken at_dies f = at_dies

  bind_turn :
      {A B : Type 0} {P : A → Shell → Type 0} {Q : B → Shell → Type 0} (f : A → Act B) {r : Turn A}
      → After P E r
      → ((a : A) (s : Shell) → P a s → After Q E (f a s))
      → After Q E
          (elim r [ success a s ↦ f a s | failure s ↦ failure s | leave ↦ leave | dies t ↦ dies t ])
  bind_turn f (at_success p) rest = rest _ _ p
  bind_turn f (at_failure e) rest = at_failure e
  bind_turn f at_leave rest = at_leave
  bind_turn f at_dies rest = at_dies

  pub bind-After :
      {A B : Type 0} (P : A → Shell → Type 0) {Q : B → Shell → Type 0} (m : Act A) (f : A → Act B)
      (s : Shell)
      → After P E (m s)
      → ((a : A) (s' : Shell) → P a s' → After Q E (f a s'))
      → After Q E ((m >>= f) s)
  unfolding ◌>>=◌
  bind-After P m f s first rest = bind_turn f first rest

  -- A read leaves the shell as it is, and succeeds only if there is a hive.
  pub ask-HasHive :
      {A : Type 0} (r : Read A) (s : Shell)
      → E s
      → After (λ a s'. (s' ≡ s) × HasHive s.h) E (ask r s)
  unfolding ask
  ask-HasHive {A} r s e = by_hive s.h
    where
      by_result :
          (x : Result A)
          → After
              (λ a s'. (s' ≡ s) × Unit {0})
              E
              (elim x [ ok a ↦ success a s | err y ↦ failure s | trap t ↦ dies t ])
      by_result (ok a) = at_success (refl, tt)
      by_result (err y) = at_failure e
      by_result (trap t) = at_dies

      by_hive :
          (o : Option Hive)
          → After
              (λ a s'. (s' ≡ s) × HasHive o)
              E
              (elim o [
                | none ↦ dies fault
                | some hive ↦ elim (r hive) [
                  | ok a ↦ success a s
                  | err y ↦ failure s
                  | trap t ↦ dies t
                ]
              ])
      by_hive none = at_dies
      by_hive (some hive) = by_result (r hive)

  pub ask-After :
      {A B : Type 0} {Q : B → Shell → Type 0} (r : Read A) (f : A → Act B) (s : Shell)
      → E s
      → ((a : A) → HasHive s.h → After Q E (f a s))
      → After Q E ((ask r >>= f) s)
  ask-After {A} {B} {Q} r f s e rest =
      bind-After _ (ask r) f s (ask-HasHive r s e)
        λ a s' (same, has). subst (λ z. After Q E (f a z)) (sym same) (rest a has)

  pub require-After :
      {B : Type 0} {Q : B → Shell → Type 0} (b : Bool) (m : Act B) (s : Shell)
      → E s
      → (b ≡ true → After Q E (m s))
      → After Q E ((require b >> m) s)
  unfolding ◌>>=◌
  require-After true m s e rest = rest refl
  require-After false m s e rest = at_failure e

  pub assert-After :
      {B : Type 0} {Q : B → Shell → Type 0} (b : Bool) (m : Act B) (s : Shell)
      → (b ≡ true → After Q E (m s))
      → After Q E ((assert b >> m) s)
  unfolding ◌>>=◌
  assert-After true m s rest = rest refl
  assert-After false m s rest = at_dies

  pub if-After :
      {A : Type 0} {P : A → Shell → Type 0} (b : Bool) (m k : Act A) (s : Shell)
      → After P E (m s)
      → After P E (k s)
      → After P E ((if b then m else k) s)
  if-After true m k s p q = p
  if-After false m k s p q = q

  pub gets-After :
      {A B : Type 0} {Q : B → Shell → Type 0} (g : Shell → A) (f : A → Act B) (s : Shell)
      → After Q E (f (g s) s)
      → After Q E ((gets g >>= f) s)
  unfolding ◌>>=◌
  gets-After g f s rest = rest

  pub modify-After :
      {B : Type 0} {Q : B → Shell → Type 0} (g : Shell → Shell) (m : Act B) (s : Shell)
      → After Q E (m (g s))
      → After Q E ((modify g >> m) s)
  unfolding ◌>>=◌
  modify-After g m s rest = rest

  -- The hive that a command of the library leaves, when it returns.
  pub run-Leaves :
      {A : Type 0} (m : Cmd A) (s : Shell)
      → ((h h' : Hive) → s.h ≡ some h → Leaves h' (m h) → E (record s { h = some h' }))
      → After (λ a s'. Ran m s s') E (run m s)
  unfolding run
  run-Leaves {A} m s e = by_hive s.h refl
    where
      by_outcome :
          (h : Hive)
          → s.h ≡ some h
          → (x : Outcome A) → m h ≡ x
          → After
              (λ a s'. Ran m s s')
              E
              (elim x [
                | done a h' ↦ success a (record s { h = some h' })
                | failed y h' ↦ failure (record s { h = some h' })
                | crash t ↦ dies t
              ])
      by_outcome h p (done a h') q =
          at_success (h, h', p, subst (Leaves h') (sym q) left_done, refl)
      by_outcome h p (failed y h') q = at_failure (e h h' p (subst (Leaves h') (sym q) left_failed))
      by_outcome h p (crash t) q = at_dies

      by_hive :
          (o : Option Hive)
          → s.h ≡ o
          → After
              (λ a s'. Ran m s s')
              E
              (elim o [
                | none ↦ dies fault
                | some hive ↦ elim (m hive) [
                  | done a h' ↦ success a (record s { h = some h' })
                  | failed y h' ↦ failure (record s { h = some h' })
                  | crash t ↦ dies t
                ]
              ])
      by_hive none p = at_dies
      by_hive (some h) p = by_outcome h p (m h) refl

  pub run-After :
      {A B : Type 0} {Q : B → Shell → Type 0} (m : Cmd A) (f : A → Act B) (s : Shell)
      → ((h h' : Hive) → s.h ≡ some h → Leaves h' (m h) → E (record s { h = some h' }))
      → ((h h' : Hive) (a : A)
          → s.h ≡ some h
          → Leaves h' (m h)
          → After Q E (f a (record s { h = some h' })))
      → After Q E ((run m >>= f) s)
  run-After {A} {B} {Q} m f s e rest =
      bind-After _ (run m) f s (run-Leaves m s e)
        λ a s' (h, h', p, l, same). subst (λ z. After Q E (f a z)) (sym same) (rest h h' a p l)
