-- ===== src/Hive/Reader/Laws.antt =====
-- Inversion of a `do` block that succeeded.
use hivex.Base.{◌≡◌, refl, ap, Bool, true, false, arith}
use hivex.Hive.{Hive, Errno, Result, ok, err, trap, Read}
use hivex.Hive.Reader.{◌>>=◌, ◌>>◌, require}

module _ (h : Hive) where
  pub >>=-eq-ok :
      {A B : Type 0} (m : Read A) (f : A → Read B) {b : B}
      → (m >>= f) h ≡ ok b
      → (a : A) × (m h ≡ ok a) × (f a h ≡ ok b)
  unfolding ◌>>=◌
  >>=-eq-ok {A} {B} m f {b} e = go (m h) refl e
    where
      go :
          (r : Result A)
          → m h ≡ r
          → (elim r [ ok a ↦ f a h | err x ↦ err x | trap t ↦ trap t ]) ≡ ok b
          → (a : A) × (m h ≡ ok a) × (f a h ≡ ok b)
      go (ok a) p q = (a, p, q)
      go (err x) p q = ground arith
      go (trap t) p q = ground arith

  pub require-eq-ok : (b : Bool) (e : Errno) {u : Unit {0}} → require b e h ≡ ok u → b ≡ true
  unfolding require
  require-eq-ok true e p = refl
  require-eq-ok false e p = ground arith

  pub require->>-eq-ok :
      {B : Type 0} (c : Bool) (e : Errno) (m : Read B) {b : B}
      → (require c e >> m) h ≡ ok b
      → (c ≡ true) × (m h ≡ ok b)
  unfolding require ◌>>=◌
  require->>-eq-ok true e m p = (refl, p)
  require->>-eq-ok false e m p = ground arith

  -- The same with what follows as a continuation, which keeps the terms of long blocks small.
  pub after {ℓ} :
      {A B : Type 0} {C : Type ℓ} (m : Read A) (f : A → Read B) {b : B}
      → (m >>= f) h ≡ ok b
      → ((a : A) → m h ≡ ok a → f a h ≡ ok b → C)
      → C
  after m f e k = let (a, p, q) = >>=-eq-ok m f e in k a p q

  pub after_require {ℓ} :
      {B : Type 0} {C : Type ℓ} (c : Bool) (x : Errno) (m : Read B) {b : B}
      → (require c x >> m) h ≡ ok b
      → (c ≡ true → m h ≡ ok b → C)
      → C
  after_require c x m e k = let (p, q) = require->>-eq-ok c x m e in k p q

pub ok-injective : {A : Type 0} {a b : A} → ok a ≡ ok b → a ≡ b
ok-injective {a} p = ap (λ r. elim r [ ok x ↦ x | err e ↦ a | trap t ↦ a ]) p

-- How a `do` block goes on after a step that succeeds.
module _ (h : Hive) where
  pub step :
      {A B : Type 0} (m : Read A) (f : A → Read B) {a : A} {r : Result B}
      → m h ≡ ok a
      → f a h ≡ r
      → (m >>= f) h ≡ r
  unfolding ◌>>=◌
  step m f p q = rw (p, ◌>>=◌) q

  pub step_require :
      {B : Type 0} (c : Bool) (x : Errno) (m : Read B) {r : Result B}
      → c ≡ true
      → m h ≡ r
      → (require c x >> m) h ≡ r
  unfolding ◌>>=◌ require
  step_require true x m p q = q
  step_require false x m p q = cc
