-- ===== src/Hive/Reader/Ends.antt =====
-- A read avoids a trap. It ends if no loop of it runs out of fuel.
use hivex.Base.{ℕ, ◌≡◌, ◌≢◌, refl, Bool, true, false, arith}
use hivex.Hive.{Hive, Errno, Trap, fault, stuck, Result, ok, err, trap, Read}
use hivex.Hive.Reader.{◌>>=◌, require}
use hivex.Hive.Memory.{load8, load32, load64}

abbrev pub Avoids : Trap → {A : Type 0} → Result A → Type 0
Avoids t r = r ≢ trap t

abbrev pub Ends : {A : Type 0} → Result A → Type 0
Ends r = Avoids stuck r

module _ (t : Trap) (h : Hive) where
  pub bind-Avoids :
      {A B : Type 0} (m : Read A) (f : A → Read B)
      → Avoids t (m h)
      → ((a : A) → m h ≡ ok a → Avoids t (f a h))
      → Avoids t ((m >>= f) h)
  unfolding ◌>>=◌
  bind-Avoids {A} {B} m f first next = go (m h) refl
    where
      go :
          (r : Result A)
          → m h ≡ r
          → Avoids t (elim r [ ok a ↦ f a h | err e ↦ err e | trap t' ↦ trap t' ])
      go (ok a) p = next a p
      go (err e) p = λ q. ground arith
      go (trap t') p = λ q. first (ground (arith, p, q))

  pub require-Avoids : (c : Bool) (e : Errno) → Avoids t (require c e h)
  unfolding require
  require-Avoids true e q = ground arith
  require-Avoids false e q = ground arith

  -- A load can only be a fault.
  module _ (no_fault : t ≢ fault) where
    pub load8-Avoids : (o : ℕ) → Avoids t (load8 o h)
    unfolding load8
    load8-Avoids o q = ground (arith, no_fault)

    pub load64-Avoids : (o : ℕ) → Avoids t (load64 o h)
    unfolding load64
    load64-Avoids o q = ground (arith, no_fault)

module _ (h : Hive) where
  pub bind-Ends :
      {A B : Type 0} (m : Read A) (f : A → Read B)
      → Ends (m h)
      → ((a : A) → m h ≡ ok a → Ends (f a h))
      → Ends ((m >>= f) h)
  bind-Ends m f first next = bind-Avoids stuck h m f first next

  pub require-Ends : (c : Bool) (e : Errno) → Ends (require c e h)
  require-Ends c e = require-Avoids stuck h c e

  pub load8-Ends : (o : ℕ) → Ends (load8 o h)
  unfolding load8
  load8-Ends o q = ground arith

  pub load32-Ends : (o : ℕ) → Ends (load32 o h)
  unfolding load32
  load32-Ends o q = ground arith

  pub load64-Ends : (o : ℕ) → Ends (load64 o h)
  unfolding load64
  load64-Ends o q = ground arith
