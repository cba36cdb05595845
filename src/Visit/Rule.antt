-- ===== src/Visit/Rule.antt =====
-- The invariant rule of the visitor: what each callback keeps, the whole walk keeps.
pub mod Nested
pub mod Node
pub mod Value
use hivex.Base.{
  ℕ, ◌≡◌, refl, Bool, true, false, ◌||◌, Option, none, some, List, ◌==◌, if◌then◌else◌,
}
use hivex.Hive.{Errno, Trap, Result, ok, err, trap, Read, other}
use hivex.Hive.Bitmap.{bitmap_clr, bitmap_tst}
use hivex.HiveType
use hivex.Visit.{
  ValueInfo, Visitor, Walk, Step, next, bad, refused, crashed, died, Visit, pure, fail, ◌>>=◌,
  query, attempt, call_if, given,
}

-- The walk that a step leaves, if any, satisfies `I`; a callback that does not return satisfies `D`.
pub data Holds {S A : Type 0} (I : Walk S → Type 0) (D : Trap → Type 0) : Step S A → Type 0 where
  at_next : {a : A} {w : Walk S} → I w → Holds I D (next a w)
  at_bad : {e : Errno} {w : Walk S} → I w → Holds I D (bad e w)
  at_refused : {e : Errno} {w : Walk S} → I w → Holds I D (refused e w)
  at_crashed : {t : Trap} → Holds I D (crashed t)
  at_died : {t : Trap} → D t → Holds I D (died t)

abbrev pub visited : {S : Type 0} → ℕ → Walk S → Walk S
visited node w = record w { unvisited = bitmap_clr w.unvisited node }

-- Nothing is asked of the end of a program in a callback.
abbrev pub AnyEnd : Trap → Type 0
AnyEnd t = Unit {0}

-- A command keeps the invariant.
abbrev pub Safe : {S A : Type 0} → (Walk S → Type 0) → (Trap → Type 0) → Visit S A → Type 0
Safe I D m = (w : Walk _) → I w → Holds I D (m w)

-- The types that each callback of a value is for.
abbrev pub is_text : ℕ → Bool
is_text t = t == HiveType.string || t == HiveType.expand_string || t == HiveType.link

abbrev pub is_dword : ℕ → Bool
is_dword t = t == HiveType.dword || t == HiveType.dword_be

pub record IsOther (t : ℕ) : Type 0 where
  pub not_none : (t == HiveType.none) ≡ false
  pub not_text : is_text t ≡ false
  pub not_dword : is_dword t ≡ false
  pub not_qword : (t == HiveType.qword) ≡ false
  pub not_binary : (t == HiveType.binary) ≡ false
  pub not_strings : (t == HiveType.multiple_strings) ≡ false

-- What is asked of the callbacks of values, each at the types that it is for.
pub record ValuesObey {S : Type 0} (I : Walk S → Type 0) (D : Trap → Type 0) (vtor : Visitor S)
    : Type 0 where
  pub string :
      (i : ValueInfo) (s : List ℕ)
      → is_text i.type ≡ true
      → Safe I D (call_if (given vtor.string_cb i) s)
  pub multiple_strings :
      (i : ValueInfo) (s : List (List ℕ))
      → (i.type == HiveType.multiple_strings) ≡ true
      → Safe I D (call_if (given vtor.multiple_strings_cb i) s)
  pub string_invalid :
      (i : ValueInfo) (s : Option (List ℕ))
      → (is_text i.type || i.type == HiveType.multiple_strings) ≡ true
      → Safe I D (call_if (given vtor.string_invalid_utf16_cb i) s)
  pub dword :
      (i : ValueInfo) (v : ℕ)
      → is_dword i.type ≡ true
      → Safe I D (call_if (given vtor.dword_cb i) v)
  pub qword :
      (i : ValueInfo) (v : ℕ)
      → (i.type == HiveType.qword) ≡ true
      → Safe I D (call_if (given vtor.qword_cb i) v)
  pub binary :
      (i : ValueInfo) (s : List ℕ)
      → (i.type == HiveType.binary) ≡ true
      → Safe I D (call_if (given vtor.binary_cb i) s)
  pub none_value :
      (i : ValueInfo) (s : List ℕ)
      → (i.type == HiveType.none) ≡ true
      → Safe I D (call_if (given vtor.none_cb i) s)
  pub other_value :
      (i : ValueInfo) (s : List ℕ) → IsOther i.type → Safe I D (call_if (given vtor.other_cb i) s)
  pub any_value : (i : ValueInfo) (s : List ℕ) → Safe I D (call_if (given vtor.any_cb i) s)

-- What is asked of the callbacks, and of the marking of a node that has not been visited.
pub record Obeys {S : Type 0} (I : Walk S → Type 0) (D : Trap → Type 0) (vtor : Visitor S)
    : Type 0 where
  pub mark : (node : ℕ) (w : Walk S) → I w → bitmap_tst w.unvisited node ≡ true → I (visited node w)
  pub start :
      (node : ℕ) (name : List ℕ) (w : Walk S)
      → I w
      → bitmap_tst w.unvisited node ≡ true
      → Holds I D (call_if (given vtor.node_start node) name (visited node w))
  pub finish : (node : ℕ) (name : List ℕ) → Safe I D (call_if (given vtor.node_end node) name)
  pub values : ValuesObey I D vtor

module _ {S : Type 0} (I : Walk S → Type 0) (D : Trap → Type 0) where
  bind_step :
      {A B : Type 0} (f : A → Visit S B) {r : Step S A}
      → Holds I D r
      → ((a : A) → Safe I D (f a))
      → Holds I D (elim r [
        | next a w' ↦ f a w'
        | bad e w' ↦ bad e w'
        | refused e w' ↦ refused e w'
        | crashed t ↦ crashed t
        | died t ↦ died t
      ])
  bind_step f (at_next i) rest = rest _ _ i
  bind_step f (at_bad i) rest = at_bad i
  bind_step f (at_refused i) rest = at_refused i
  bind_step f at_crashed rest = at_crashed
  bind_step f (at_died d) rest = at_died d

  pub bind-Holds :
      {A B : Type 0} (m : Visit S A) (f : A → Visit S B) (w : Walk S)
      → Holds I D (m w)
      → ((a : A) → Safe I D (f a))
      → Holds I D ((m >>= f) w)
  unfolding ◌>>=◌
  bind-Holds m f w first rest = bind_step f first rest

  -- What follows a read knows what has been read.
  pub query-Holds :
      {A B : Type 0} (r : Read A) (f : A → Visit S B) (w : Walk S)
      → I w
      → ((a : A) → r w.hive ≡ ok a → Holds I D (f a w))
      → Holds I D ((query r >>= f) w)
  unfolding ◌>>=◌ query
  query-Holds {A} {B} r f w i rest = go (r w.hive) refl
    where
      go :
          (x : Result A)
          → r w.hive ≡ x
          → Holds I D
              (elim (elim x as (λ x'. Step S A) [
                | ok a ↦ next a w
                | err e ↦ bad e w
                | trap t ↦ crashed t
              ])
                as (λ x'. Step S B) [
                  | next a w' ↦ f a w'
                  | bad e w' ↦ bad e w'
                  | refused e w' ↦ refused e w'
                  | crashed t ↦ crashed t
                  | died t ↦ died t
                ])
      go (ok a) p = rest a p
      go (err e) p = at_bad i
      go (trap t) p = at_crashed

  pub attempt-Holds :
      {A B : Type 0} (r : Read A) (f : Option A × Errno → Visit S B) (w : Walk S)
      → ((a : A) → r w.hive ≡ ok a → Holds I D (f (some a, other 0) w))
      → ((e : Errno) → Holds I D (f (none, e) w))
      → Holds I D ((attempt r >>= f) w)
  unfolding ◌>>=◌ attempt
  attempt-Holds {A} {B} r f w found missing = go (r w.hive) refl
    where
      go :
          (x : Result A)
          → r w.hive ≡ x
          → Holds I D
              (elim (elim x as (λ x'. Step S (Option A × Errno)) [
                | ok a ↦ next (some a, other 0) w
                | err e ↦ next (none, e) w
                | trap t ↦ crashed t
              ])
                as (λ x'. Step S B) [
                  | next a w' ↦ f a w'
                  | bad e w' ↦ bad e w'
                  | refused e w' ↦ refused e w'
                  | crashed t ↦ crashed t
                  | died t ↦ died t
                ])
      go (ok a) p = found a p
      go (err e) p = missing e
      go (trap t) p = at_crashed

  pub bind-Safe :
      {A B : Type 0} (m : Visit S A) (f : A → Visit S B)
      → Safe I D m
      → ((a : A) → Safe I D (f a))
      → Safe I D (m >>= f)
  bind-Safe m f first rest w i = bind-Holds m f w (first w i) rest

  pub query-Safe :
      {A B : Type 0} (r : Read A) (f : A → Visit S B)
      → ((a : A) → Safe I D (f a))
      → Safe I D (query r >>= f)
  query-Safe r f rest w i = query-Holds r f w i λ a p. rest a w i

  pub if-Holds :
      {A : Type 0} (b : Bool) (m k : Visit S A) (w : Walk S)
      → (b ≡ true → Holds I D (m w))
      → (b ≡ false → Holds I D (k w))
      → Holds I D ((if b then m else k) w)
  if-Holds true m k w p q = p refl
  if-Holds false m k w p q = q refl

  pub pure-Safe : Safe I D (pure {S = S} tt)
  pure-Safe w i = at_next i

  pub fail-Safe : (e : Errno) → Safe I D (fail {S = S} {A = Unit {0}} e)
  fail-Safe e w i = at_bad i
