-- ===== src/Hive/Writer/Laws.antt =====
-- Total correctness of a command: it ends without an error or a trap, in a state with a
-- postcondition. Each rule follows one step of a `do` block.
use hivex.Base.{ℕ, ◌+◌, ◌≤◌, ◌≡◌, Bool, true, arith}
use hivex.Hive.{Hive, Errno, ok, Outcome, done, failed, crash, Read, Cmd}
use hivex.Hive.Writer.{◌>>=◌, require, assert, get}
use hivex.Hive.Bytes.{Image}
use hivex.Hive.Memory.{write}

pub data Returns {A : Type 0} (P : A → Hive → Type 0) : Outcome A → Type 0 where
  returns : {a : A} {h : Hive} → P a h → Returns P (done a h)

pub mono :
    {A : Type 0} {P Q : A → Hive → Type 0} {r : Outcome A}
    → Returns P r
    → ((a : A) (h : Hive) → P a h → Q a h)
    → Returns Q r
mono (returns p) k = returns (k _ _ p)

bind_outcome :
    {A B : Type 0} {P : A → Hive → Type 0} {Q : B → Hive → Type 0} {r : Outcome A} (f : A → Cmd B)
    → Returns P r
    → ((a : A) (h' : Hive) → P a h' → Returns Q (f a h'))
    → Returns Q (elim r [ done a h' ↦ f a h' | failed e h' ↦ failed e h' | crash t ↦ crash t ])
bind_outcome f (returns p) next = next _ _ p

module _ (h : Hive) where
  pub bind :
      {A B : Type 0} {P : A → Hive → Type 0} {Q : B → Hive → Type 0} (m : Cmd A) (f : A → Cmd B)
      → Returns P (m h)
      → ((a : A) (h' : Hive) → P a h' → Returns Q (f a h'))
      → Returns Q ((m >>= f) h)
  unfolding ◌>>=◌
  bind m f first next = bind_outcome f first next

  -- After a step whose outcome is known.
  pub next :
      {A B : Type 0} {Q : B → Hive → Type 0} (m : Cmd A) (f : A → Cmd B) {a : A} {h' : Hive}
      → m h ≡ done a h'
      → Returns Q (f a h')
      → Returns Q ((m >>= f) h)
  unfolding ◌>>=◌
  next m f p q = rw (p, ◌>>=◌) q

  pub step :
      {A B : Type 0} (m : Cmd A) (f : A → Cmd B) {a : A} {h' : Hive} {r : Outcome B}
      → m h ≡ done a h'
      → f a h' ≡ r
      → (m >>= f) h ≡ r
  unfolding ◌>>=◌
  step m f p q = rw (p, ◌>>=◌) q

  pub require_done : (c : Bool) (e : Errno) → c ≡ true → require c e h ≡ done tt h
  unfolding require
  require_done c e p = rw p

  pub assert_done : (c : Bool) → c ≡ true → assert c h ≡ done tt h
  unfolding assert
  assert_done c p = rw p

  pub get_done : {A : Type 0} (r : Read A) {a : A} → r h ≡ ok a → get r h ≡ done a h
  unfolding get
  get_done r p = rw (p, get)

  module _ (o n : ℕ) (f : Image → Image) (w : h.writable ≡ true) (inside : o + n ≤ h.size) where
    pub write_done : write o n f h ≡ done tt (record h { mem = f h.mem })
    unfolding write
    write_done = ground arith
