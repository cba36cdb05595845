-- ===== src/Hive.antt =====
-- The handle `struct hive_h` of lib/hivex-internal.h, and the two kinds of operation on it: a
-- `Read` leaves the handle alone, a `Cmd` may change it, also when it fails.
--
-- The image of the registry file, `h->addr`, is a function from offsets to bytes with its length
-- `size`; an access that is not inside the image is the trap `fault`, a failed `assert` is `abort`.
-- `grants n` says whether the C library's allocator serves a request of `n` bytes.
-- `size_t` has 64 bits and the host is little-endian, so `le32toh` and its kin are the identity.
pub mod Bitmap
pub mod Bytes
pub mod Frame
pub mod Reader
pub mod Writer
pub mod Memory
use hivex.Base.{ℕ, Bool, if◌then◌else◌}

-- The values of `errno` that the library sets or passes on.
pub data Errno : Type 0 where
  einval enotsup erange efault erofs eexist enomem eloop eilseq e2big no_key : Errno
  other : ℕ → Errno

-- `dangling`: the call returns with the image freed and still in use by the handle.
-- `exit`: a program over the library has called `exit` with an error status.
-- `stuck` is no outcome of the code: a loop of the model ran out of fuel.
pub data Trap : Type 0 where
  fault abort dangling exit stuck : Trap

pub record Hive : Type 0 where
  pub size : ℕ
  pub writable : Bool
  pub mem : ℕ → ℕ
  pub bitmap : ℕ → ℕ
  pub rootoffs : ℕ
  pub endpages : ℕ
  pub last_modified : ℕ
  pub endblocks : ℕ
  pub grants : ℕ → Bool

pub data Result {ℓ} (A : Type ℓ) : Type ℓ where
  ok : A → Result A
  err : Errno → Result A
  trap : Trap → Result A

pub data Outcome {ℓ} (A : Type ℓ) : Type ℓ where
  done : A → Hive → Outcome A
  failed : Errno → Hive → Outcome A
  crash : Trap → Outcome A

abbrev pub Read : Type 0 → Type 0
Read A = Hive → Result A

abbrev pub Cmd : Type 0 → Type 0
Cmd A = Hive → Outcome A
