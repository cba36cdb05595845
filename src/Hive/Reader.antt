-- ===== src/Hive/Reader.antt =====
-- `do` blocks of operations that only read the handle.
pub mod Ends
pub mod Laws
use hivex.Base.{ℕ, Bool, true, false}
use hivex.Hive.{Hive, Errno, enomem, Trap, abort, Result, ok, err, trap, Read}

module _ {A : Type 0} where
  abbrev pub pure : A → Read A
  pure a h = ok a

  abbrev pub throw : Errno → Read A
  throw e h = err e

  abbrev pub stop : Trap → Read A
  stop t h = trap t

infixl 5 ◌>>=◌ ◌>>◌
unfoldable pub ◌>>=◌ : {A B : Type 0} → Read A → (A → Read B) → Read B
◌>>=◌ m f h = elim (m h) [ ok a ↦ f a h | err e ↦ err e | trap t ↦ trap t ]

abbrev pub ◌>>◌ : {B : Type 0} → Read (Unit {0}) → Read B → Read B
m >> k = m >>= λ _. k

-- `if (!b) { errno = e; return error; }`
unfoldable pub require : Bool → Errno → Read (Unit {0})
require true e = pure tt
require false e = throw e

-- `assert (b)`
unfoldable pub assert : Bool → Read (Unit {0})
assert true = pure tt
assert false = stop abort

-- `if (malloc (n) == NULL) return error;`
abbrev pub malloc : ℕ → Read (Unit {0})
malloc n h = require (h.grants n) enomem h

abbrev pub asks : {A : Type 0} → (Hive → A) → Read A
asks f h = ok (f h)
