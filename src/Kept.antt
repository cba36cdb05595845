-- ===== src/Kept.antt =====
-- What every operation of lib/hivex.c that writes keeps of the handle, whether it succeeds or fails.
pub mod Alloc
pub mod Add
pub mod Change
pub mod SetValues
pub mod Delete
pub mod Reach
pub mod Refused
use hivex.Base.{
  ℕ, ◌+◌, ◌%◌, ◌≤◌, ◌≡◌, refl, ◌∙◌, ap, arith, Bool, true, false, Option, none, some, if◌then◌else◌,
  ◌&&◌, leb, List, length,
}
use hivex.Hive.{
  Hive, Errno, enomem, erofs, Trap, fault, Result, ok, err, trap, Outcome, done, failed, crash,
  Read, Cmd,
}
use hivex.Hive.Writer.{◌>>=◌, ◌>>◌, require, assert, get, malloc, asks}
use hivex.Hive.Bytes.{Image}
use hivex.Hive.Bitmap.Laws.{IsBitmap}
use hivex.Hive.Memory.{write, store8, store16, store32, store64, memset, store_bytes}

-- Pages and blocks are on 8-byte boundaries.
abbrev pub IsAligned : Hive → Type 0
IsAligned h = (h.endpages % 8 ≡ 0) × (h.endblocks % 8 ≡ 0)

-- The handle before and after an operation.
pub record Kept (h h' : Hive) : Type 0 where
  pub writable : h'.writable ≡ h.writable
  pub rootoffs : h'.rootoffs ≡ h.rootoffs
  pub last_modified : h'.last_modified ≡ h.last_modified
  pub grants : h'.grants ≡ h.grants
  pub size : h.size ≤ h'.size
  pub endpages : h.endpages ≤ h'.endpages
  pub bytes : IsBitmap h.bitmap → IsBitmap h'.bitmap
  pub aligned : IsAligned h → IsAligned h'
  pub frozen : h.writable ≡ false → h' ≡ h

pub Kept-refl : (h : Hive) → Kept h h
Kept-refl h = record {
  writable = refl;
  rootoffs = refl;
  last_modified = refl;
  grants = refl;
  size = omega arith;
  endpages = omega arith;
  bytes = λ b. b;
  aligned = λ a. a;
  frozen = λ r. refl;
}

pub Kept-trans : {f g h : Hive} → Kept f g → Kept g h → Kept f h
Kept-trans a b = record {
  writable = b.writable ∙ a.writable;
  rootoffs = b.rootoffs ∙ a.rootoffs;
  last_modified = b.last_modified ∙ a.last_modified;
  grants = b.grants ∙ a.grants;
  size = omega (arith, a.size, b.size);
  endpages = omega (arith, a.endpages, b.endpages);
  bytes = λ p. b.bytes (a.bytes p);
  aligned = λ p. b.aligned (a.aligned p);
  frozen = λ r. b.frozen (a.writable ∙ r) ∙ a.frozen r;
}

-- The outcome leaves a handle that keeps all that, or the program has ended.
pub data Keeps {A : Type 0} (h : Hive) : Outcome A → Type 0 where
  at_done : {a : A} {h' : Hive} → Kept h h' → Keeps h (done a h')
  at_failed : {e : Errno} {h' : Hive} → Kept h h' → Keeps h (failed e h')
  at_crash : {t : Trap} → Keeps h (crash t)

-- A command that keeps all that on every handle that is writable, or is not.
abbrev pub SteadyAt : {A : Type 0} → Bool → Cmd A → Type 0
SteadyAt b m = (h : Hive) → h.writable ≡ b → Keeps h (m h)

abbrev pub Steady : {A : Type 0} → Cmd A → Type 0
Steady m = SteadyAt true m

later : {A : Type 0} {h g : Hive} {r : Outcome A} → Kept h g → Keeps g r → Keeps h r
later k (at_done l) = at_done (Kept-trans k l)
later k (at_failed l) = at_failed (Kept-trans k l)
later k at_crash = at_crash

bind_outcome :
    {A B : Type 0} {b : Bool} (f : A → Cmd B) (h : Hive) {r : Outcome A}
    → h.writable ≡ b
    → Keeps h r
    → ((a : A) → SteadyAt b (f a))
    → Keeps h (elim r [ done a h' ↦ f a h' | failed e h' ↦ failed e h' | crash t ↦ crash t ])
bind_outcome f h w (at_done {a} {h'} k) rest = later k (rest a h' (k.writable ∙ w))
bind_outcome f h w (at_failed k) rest = at_failed k
bind_outcome f h w at_crash rest = at_crash

module _ {A : Type 0} {b : Bool} where
  pub bind-Steady :
      {B : Type 0} (m : Cmd A) (f : A → Cmd B)
      → SteadyAt b m
      → ((a : A) → SteadyAt b (f a))
      → SteadyAt b (m >>= f)
  unfolding ◌>>=◌
  bind-Steady m f first rest h w = bind_outcome f h w (first h w) rest

  pub if-Steady :
      (c : Bool) {m k : Cmd A} → SteadyAt b m → SteadyAt b k → SteadyAt b (if c then m else k)
  if-Steady true p q = p
  if-Steady false p q = q

  pub done-Steady : (a : A) → SteadyAt b (λ h. done a h)
  done-Steady a h w = at_done (Kept-refl h)

  pub failed-Steady : (e : Errno) → SteadyAt {A = A} b (λ h. failed e h)
  failed-Steady e h w = at_failed (Kept-refl h)

  pub get-Steady : (r : Read A) → SteadyAt b (get r)
  unfolding get
  get-Steady r h w = go (r h)
    where
      go :
          (x : Result A)
          → Keeps h (elim x [ ok a ↦ done a h | err e ↦ failed e h | trap t ↦ crash t ])
      go (ok a) = at_done (Kept-refl h)
      go (err e) = at_failed (Kept-refl h)
      go (trap t) = at_crash

  pub asks-Steady : (f : Hive → A) → SteadyAt b (λ h. done (f h) h)
  asks-Steady f h w = at_done (Kept-refl h)

module _ {A : Type 0} (h : Hive) where
  -- The guard of a command that refuses a handle that is not writable.
  pub guard-refused :
      (m : Cmd A)
      → h.writable ≡ false
      → (asks (λ h'. h'.writable) >>= λ w. require w erofs >> m) h ≡ failed erofs h
  unfolding ◌>>=◌ require
  guard-refused m r = go h.writable r
    where
      go : (c : Bool) → c ≡ false → (require c erofs >> m) h ≡ failed erofs h
      go true e = absurd (cc)
      go false e = refl

  pub bind-refused :
      {B : Type 0} (m : Cmd B) (f : B → Cmd A) {e : Errno} {h' : Hive}
      → m h ≡ failed e h'
      → (m >>= f) h ≡ failed e h'
  unfolding ◌>>=◌
  bind-refused {B} m f {e} {h'} p = ap after p
    where
      after : Outcome B → Outcome A
      after r = elim r [ done a g ↦ f a g | failed x g ↦ failed x g | crash t ↦ crash t ]

  pub refused-Keeps : {e : Errno} {r : Outcome A} → r ≡ failed e h → Keeps h r
  refused-Keeps p = rw p (at_failed (Kept-refl h))

module _ {b : Bool} where
  pub require-Steady : (c : Bool) (e : Errno) → SteadyAt b (require c e)
  unfolding require
  require-Steady true e h w = at_done (Kept-refl h)
  require-Steady false e h w = at_failed (Kept-refl h)

  pub assert-Steady : (c : Bool) → SteadyAt b (assert c)
  unfolding assert
  assert-Steady true h w = at_done (Kept-refl h)
  assert-Steady false h w = at_crash

  pub malloc-Steady : (n : ℕ) → SteadyAt b (malloc n)
  malloc-Steady n h w = require-Steady (h.grants n) enomem h w

-- Changes of the image and of the bitmap.
pub image-Kept : (h : Hive) (m : Image) → h.writable ≡ true → Kept h (record h { mem = m })
image-Kept h m w = record {
  writable = refl;
  rootoffs = refl;
  last_modified = refl;
  grants = refl;
  size = omega arith;
  endpages = omega arith;
  bytes = λ b. b;
  aligned = λ a. a;
  frozen = λ r. absurd (cc);
}

pub bitmap-Kept :
    (h : Hive) (b : ℕ → ℕ)
    → h.writable ≡ true
    → (IsBitmap h.bitmap → IsBitmap b)
    → Kept h (record h { bitmap = b })
bitmap-Kept h b w bytes = record {
  writable = refl;
  rootoffs = refl;
  last_modified = refl;
  grants = refl;
  size = omega arith;
  endpages = omega arith;
  bytes = bytes;
  aligned = λ a. a;
  frozen = λ r. absurd (cc);
}

pub write-Steady : (o n : ℕ) (f : Image → Image) → Steady (write o n f)
unfolding write
write-Steady o n f h w = by_test (h.writable && leb (o + n) h.size)
  where
    by_test : (b : Bool) → Keeps h (if b then done tt (record h { mem = f h.mem }) else crash fault)
    by_test true = at_done (image-Kept h (f h.mem) w)
    by_test false = at_crash

module _ (o : ℕ) where
  pub store16-Steady : (v : ℕ) → Steady (store16 o v)
  unfolding store16
  store16-Steady v = write-Steady o 2 _

  pub store32-Steady : (v : ℕ) → Steady (store32 o v)
  unfolding store32
  store32-Steady v = write-Steady o 4 _

  pub store64-Steady : (v : ℕ) → Steady (store64 o v)
  unfolding store64
  store64-Steady v = write-Steady o 8 _

  pub store8-Steady : (v : ℕ) → Steady (store8 o v)
  unfolding store8
  store8-Steady v = write-Steady o 1 _

  pub memset-Steady : (v n : ℕ) → Steady (memset o v n)
  unfolding memset
  memset-Steady v n = write-Steady o n _

  pub store_bytes-Steady : (xs : List ℕ) → Steady (store_bytes o xs)
  unfolding store_bytes
  store_bytes-Steady xs = write-Steady o (length xs) _

-- The same relative to an earlier handle, with what is known of the result.
pub data Ensures {A : Type 0} (g : Hive) (P : A → Type 0) : Outcome A → Type 0 where
  ensured : {a : A} {h' : Hive} → Kept g h' → P a → Ensures g P (done a h')
  not_done : {e : Errno} {h' : Hive} → Kept g h' → Ensures g P (failed e h')
  ended : {t : Trap} → Ensures g P (crash t)

module _ {A : Type 0} (g : Hive) where
  Ensures-outcome :
      {B : Type 0} (P : A → Type 0) (Q : B → Type 0) (f : A → Cmd B) {r : Outcome A}
      → Ensures g P r
      → ((a : A) (h' : Hive) → Kept g h' → P a → Ensures g Q (f a h'))
      → Ensures g Q (elim r [ done a h' ↦ f a h' | failed e h' ↦ failed e h' | crash t ↦ crash t ])
  Ensures-outcome P Q f (ensured k p) rest = rest _ _ k p
  Ensures-outcome P Q f (not_done k) rest = not_done k
  Ensures-outcome P Q f ended rest = ended

  pub bind-Ensures :
      {B : Type 0} (h : Hive) (P : A → Type 0) (Q : B → Type 0) (m : Cmd A) (f : A → Cmd B)
      → Ensures g P (m h)
      → ((a : A) (h' : Hive) → Kept g h' → P a → Ensures g Q (f a h'))
      → Ensures g Q ((m >>= f) h)
  unfolding ◌>>=◌
  bind-Ensures h P Q m f first rest = Ensures-outcome P Q f first rest

  -- What a steady command does to a later handle.
  pub Steady-Ensures :
      (h : Hive) (m : Cmd A)
      → g.writable ≡ true
      → Kept g h
      → Steady m
      → Ensures g (λ a. Unit {0}) (m h)
  Steady-Ensures h m w k steady = go k (steady h (k.writable ∙ w))
    where
      go : {r : Outcome A} → Kept g h → Keeps h r → Ensures g (λ a. Unit {0}) r
      go k (at_done l) = ensured (Kept-trans k l) tt
      go k (at_failed l) = not_done (Kept-trans k l)
      go k at_crash = ended

  pub Keeps-Ensures : {r : Outcome A} → Keeps g r → Ensures g (λ a. Unit {0}) r
  Keeps-Ensures (at_done k) = ensured k tt
  Keeps-Ensures (at_failed k) = not_done k
  Keeps-Ensures at_crash = ended

  pub Ensures-Keeps : (P : A → Type 0) {r : Outcome A} → Ensures g P r → Keeps g r
  Ensures-Keeps P (ensured k p) = at_done k
  Ensures-Keeps P (not_done k) = at_failed k
  Ensures-Keeps P ended = at_crash
