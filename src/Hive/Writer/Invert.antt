-- ===== src/Hive/Writer/Invert.antt =====
-- Inversion of a `do` block of commands that succeeded.
use hivex.Base.{◌≡◌, ◌∙◌, refl, ap, Bool, true, false}
use hivex.Hive.{Hive, Errno, Result, ok, err, trap, Outcome, done, failed, crash, Read, Cmd}
use hivex.Hive.Writer.{◌>>=◌, require, get}

pub done-injective : {A : Type 0} {a b : A} {h k : Hive} → done a h ≡ done b k → (a ≡ b) × (h ≡ k)
done-injective {a} {h} p = (
  ap (λ r. elim r [ done x g ↦ x | failed e g ↦ a | crash t ↦ a ]) p,
  ap (λ r. elim r [ done x g ↦ g | failed e g ↦ h | crash t ↦ h ]) p,
)

module _ (h : Hive) where
  pub after {ℓ} :
      {A B : Type 0} {C : Type ℓ} (m : Cmd A) (f : A → Cmd B) {b : B} {g : Hive}
      → (m >>= f) h ≡ done b g
      → ((a : A) (h' : Hive) → m h ≡ done a h' → f a h' ≡ done b g → C)
      → C
  unfolding ◌>>=◌
  after {A} {B} {C} m f {b} {g} e k = go (m h) refl e
    where
      go :
          (r : Outcome A)
          → m h ≡ r
          → (elim r [ done a h' ↦ f a h' | failed x h' ↦ failed x h' | crash t ↦ crash t ])
            ≡ done b g
          → C
      go (done a h') p q = k a h' p q
      go (failed x h') p q = absurd (cc)
      go (crash t) p q = absurd (cc)

  pub require-eq-done :
      (c : Bool) (e : Errno) {u : Unit {0}} {g : Hive}
      → require c e h ≡ done u g
      → (c ≡ true) × (h ≡ g)
  unfolding require
  require-eq-done true e p = (refl, (done-injective p).1)
  require-eq-done false e p = absurd (cc)

  pub get-eq-done :
      {A : Type 0} (r : Read A) {a : A} {g : Hive} → get r h ≡ done a g → (r h ≡ ok a) × (h ≡ g)
  unfolding get
  get-eq-done {A} r {a} {g} p = go (r h) refl p
    where
      go :
          (x : Result A)
          → r h ≡ x
          → (elim x [ ok b ↦ done b h | err e ↦ failed e h | trap t ↦ crash t ]) ≡ done a g
          → (r h ≡ ok a) × (h ≡ g)
      go (ok b) e q = let (same, state) = done-injective q in (e ∙ ap ok same, state)
      go (err x) e q = absurd (cc)
      go (trap t) e q = absurd (cc)
