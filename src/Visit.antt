-- ===== src/Visit.antt =====
-- The visitor of lib/hivex.c: `hivex_visit`, `hivex_visit_node` and `hivex__visit_node`.
--
-- The callbacks are the caller's; they may change the handle and the caller's data, `opaque`.
pub mod Depth
pub mod Few
pub mod Node
pub mod Once
pub mod Rule
pub mod Value
use hivex.Base.{
  ℕ, zero, suc, ◌+◌, ◌*◌, ◌/◌, ◌^◌, Bool, true, false, ◌||◌, Option, none, some, List, [], ◌∷◌, leb,
  ltb, ◌==◌, if◌then◌else◌, length,
}
use hivex.Hive.{
  Hive, Errno, einval, enomem, eloop, eilseq, other, Trap, fault, stuck, Result, ok, err, trap,
  Read,
}
use hivex.Hive.Bitmap.{bitmap_clr, bitmap_tst}

-- What a callback does: it returns 0 or -1, or does not return.
pub data Reply (S : Type 0) : Type 0 where
  continue : S → Hive → Reply S
  refuse : Errno → S → Hive → Reply S
  die : Trap → Reply S

abbrev pub Callback : Type 0 → Type 0
Callback S = S → Hive → Reply S

-- The arguments of a value's callback but for its data.
pub record ValueInfo : Type 0 where
  pub node : ℕ
  pub value : ℕ
  pub type : ℕ
  pub len : ℕ
  pub key : List ℕ

-- `struct hivex_visitor`; a null pointer is `none`. The data for `value_string_invalid_utf16` is a
-- null pointer when it cannot be read.
pub record Visitor (S : Type 0) : Type 0 where
  pub node_start : Option (ℕ → List ℕ → Callback S)
  pub node_end : Option (ℕ → List ℕ → Callback S)
  pub string_cb : Option (ValueInfo → List ℕ → Callback S)
  pub multiple_strings_cb : Option (ValueInfo → List (List ℕ) → Callback S)
  pub string_invalid_utf16_cb : Option (ValueInfo → Option (List ℕ) → Callback S)
  pub dword_cb : Option (ValueInfo → ℕ → Callback S)
  pub qword_cb : Option (ValueInfo → ℕ → Callback S)
  pub binary_cb : Option (ValueInfo → List ℕ → Callback S)
  pub none_cb : Option (ValueInfo → List ℕ → Callback S)
  pub other_cb : Option (ValueInfo → List ℕ → Callback S)
  pub any_cb : Option (ValueInfo → List ℕ → Callback S)

-- The state of a walk. `unvisited` has `room` bytes.
pub record Walk (S : Type 0) : Type 0 where
  pub hive : Hive
  pub opaque : S
  pub unvisited : ℕ → ℕ
  pub room : ℕ

-- A step of a walk: it goes on, meets an internal error, a callback has returned -1, the library
-- has crashed, or a callback does not return.
pub data Step (S : Type 0) (A : Type 0) : Type 0 where
  next : A → Walk S → Step S A
  bad : Errno → Walk S → Step S A
  refused : Errno → Walk S → Step S A
  crashed died : Trap → Step S A

abbrev pub Visit : Type 0 → Type 0 → Type 0
Visit S A = Walk S → Step S A

module _ {S : Type 0} where
  abbrev pub pure : {A : Type 0} → A → Visit S A
  pure a w = next a w

  abbrev pub fail : {A : Type 0} → Errno → Visit S A
  fail e w = bad e w

  infixl 5 ◌>>=◌ ◌>>◌
  unfoldable pub ◌>>=◌ : {A B : Type 0} → Visit S A → (A → Visit S B) → Visit S B
  ◌>>=◌ m f w = elim (m w) [
    | next a w' ↦ f a w'
    | bad e w' ↦ bad e w'
    | refused e w' ↦ refused e w'
    | crashed t ↦ crashed t
    | died t ↦ died t
  ]

  abbrev pub ◌>>◌ : {B : Type 0} → Visit S (Unit {0}) → Visit S B → Visit S B
  m >> k = m >>= λ _. k

  -- `if (!result) { ret = skip_bad ? 0 : -1; goto error; }`
  unfoldable pub query : {A : Type 0} → Read A → Visit S A
  query r w = elim (r w.hive) [ ok a ↦ next a w | err e ↦ bad e w | trap t ↦ crashed t ]

  -- The result of a read, whatever it is.
  unfoldable pub attempt : {A : Type 0} → Read A → Visit S (Option A × Errno)
  attempt r w = elim (r w.hive) [
    | ok a ↦ next (some a, other 0) w
    | err e ↦ next (none, e) w
    | trap t ↦ crashed t
  ]

  unfoldable pub call : Callback S → Visit S (Unit {0})
  call cb w = elim (cb w.opaque w.hive) [
    | continue s h ↦ next tt (record w { hive = h; opaque = s })
    | refuse e s h ↦ refused e (record w { hive = h; opaque = s })
    | die t ↦ died t
  ]

  -- `if (vtor->cb && vtor->cb (...) == -1) goto error;`
  unfoldable pub call_if : {X : Type 0} → Option (X → Callback S) → X → Visit S (Unit {0})
  call_if none x = pure tt
  call_if (some cb) x = call (cb x)

unfoldable pub is_invalid : Errno → Bool
is_invalid eilseq = true
is_invalid einval = true
is_invalid _ = false

abbrev pub or_minus_one : ℕ → Option ℕ → ℕ
or_minus_one minus_one none = minus_one
or_minus_one minus_one (some v) = v

-- The callback with its first argument given.
abbrev pub given : {S X Y : Type 0} → Option (X → Y → Callback S) → X → Option (Y → Callback S)
given none x = none
given (some cb) x = some (cb x)
