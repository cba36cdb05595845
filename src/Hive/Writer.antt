-- ===== src/Hive/Writer.antt =====
-- `do` blocks of operations that change the handle.
pub mod Invert
pub mod Laws
use hivex.Base.{ℕ, Bool, true, false}
use hivex.Hive.{
  Hive, Errno, enomem, Trap, abort, Result, ok, err, trap, Outcome, done, failed, crash, Read, Cmd,
}

abbrev pub pure : {A : Type 0} → A → Cmd A
pure a h = done a h

abbrev pub throw : {A : Type 0} → Errno → Cmd A
throw e h = failed e h

abbrev pub stop : {A : Type 0} → Trap → Cmd A
stop t h = crash t

infixl 5 ◌>>=◌ ◌>>◌
unfoldable pub ◌>>=◌ : {A B : Type 0} → Cmd A → (A → Cmd B) → Cmd B
◌>>=◌ m f h = elim (m h) [ done a h' ↦ f a h' | failed e h' ↦ failed e h' | crash t ↦ crash t ]

abbrev pub ◌>>◌ : {B : Type 0} → Cmd (Unit {0}) → Cmd B → Cmd B
m >> k = m >>= λ _. k

-- A read as a step: the handle stays as it is.
unfoldable pub get : {A : Type 0} → Read A → Cmd A
get r h = elim (r h) [ ok a ↦ done a h | err e ↦ failed e h | trap t ↦ crash t ]

unfoldable pub require : Bool → Errno → Cmd (Unit {0})
require true e = pure tt
require false e = throw e

unfoldable pub assert : Bool → Cmd (Unit {0})
assert true = pure tt
assert false = stop abort

abbrev pub malloc : ℕ → Cmd (Unit {0})
malloc n h = require (h.grants n) enomem h

abbrev pub asks : {A : Type 0} → (Hive → A) → Cmd A
asks f h = done (f h) h

abbrev pub modify : (Hive → Hive) → Cmd (Unit {0})
modify f h = done tt (f h)
