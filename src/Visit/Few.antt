-- ===== src/Visit/Few.antt =====
-- How many nodes a walk has left, and that no step but the marking changes it.
use hivex.Base.{ℕ, ◌*◌, ◌≤◌, ◌≡◌, refl, ap, arith, Option, none, some}
use hivex.Hive.{Result, ok, err, trap, Read}
use hivex.Hive.Bitmap.Laws.{IsBitmap, clr-IsBitmap}
use hivex.Hive.Bitmap.Count.{tally, tally-clr}
use hivex.Visit.{
  Reply, continue, refuse, die, Callback, Visitor, Walk, Step, next, bad, refused, crashed, died,
  Visit, ◌>>=◌, query, call, call_if,
}
use hivex.Visit.Rule.{
  Holds, at_next, at_bad, at_refused, at_crashed, at_died, AnyEnd, visited, Safe, Obeys,
}

module _ {S : Type 0} where
  -- The bits that are set in `unvisited`.
  abbrev pub left : Walk S → ℕ
  left w = tally w.unvisited (8 * w.room)

  -- At most `k` nodes are left.
  pub record Few (k : ℕ) (w : Walk S) : Type 0 where
    pub bytes : IsBitmap w.unvisited
    pub few : left w ≤ k

  abbrev pub Keeps : {A : Type 0} → ℕ → Step S A → Type 0
  Keeps k r = Holds (Few k) AnyEnd r

  pub mark-Few : (k node : ℕ) (w : Walk S) → Few k w → Few k (visited node w)
  mark-Few k node w f = record {
    bytes = clr-IsBitmap w.unvisited f.bytes node;
    few = omega (arith, tally-clr w.unvisited f.bytes node (8 * w.room), f.few);
  }

  pub call_if-Safe :
      {X : Type 0} (k : ℕ) (o : Option (X → Callback S)) (x : X) → Safe (Few k) AnyEnd (call_if o x)
  unfolding call_if call
  call_if-Safe k none x w f = at_next f
  call_if-Safe k (some cb) x w f = go (cb x w.opaque w.hive)
    where
      go :
          (r : Reply S)
          → Keeps k (elim r as (λ r'. Step S (Unit {0})) [
            | continue s h ↦ next tt (record w { hive = h; opaque = s })
            | refuse e s h ↦ refused e (record w { hive = h; opaque = s })
            | die t ↦ died t
          ])
      go (continue s h) = at_next (record { bytes = f.bytes; few = f.few })
      go (refuse e s h) = at_refused (record { bytes = f.bytes; few = f.few })
      go (die t) = at_died tt

  pub Few-Obeys : (k : ℕ) (v : Visitor S) → Obeys (Few k) AnyEnd v
  Few-Obeys k v = record {
    mark = λ node w f set. mark-Few k node w f;
    start = λ node name w f set. call_if-Safe k _ name (visited node w) (mark-Few k node w f);
    finish = λ node name. call_if-Safe k _ name;
    values = record {
      string = λ x y t. call_if-Safe k _ y;
      multiple_strings = λ x y t. call_if-Safe k _ y;
      string_invalid = λ x y t. call_if-Safe k _ y;
      dword = λ x y t. call_if-Safe k _ y;
      qword = λ x y t. call_if-Safe k _ y;
      binary = λ x y t. call_if-Safe k _ y;
      none_value = λ x y t. call_if-Safe k _ y;
      other_value = λ x y t. call_if-Safe k _ y;
      any_value = λ x y. call_if-Safe k _ y;
    };
  }

  pub query-Safe : {A : Type 0} (k : ℕ) (r : Read A) → Safe (Few k) AnyEnd (query r)
  unfolding query
  query-Safe {A} k r w f = go (r w.hive)
    where
      go :
          (x : Result A)
          → Keeps k (elim x as (λ x'. Step S A) [
            | ok a ↦ next a w
            | err e ↦ bad e w
            | trap t ↦ crashed t
          ])
      go (ok a) = at_next f
      go (err e) = at_bad f
      go (trap t) = at_crashed

  -- Two continuations that agree on the walks that a step can leave.
  same_step :
      {A B : Type 0} {k : ℕ} (f g : A → Visit S B) {r : Step S A}
      → Keeps k r
      → ((a : A) (w : Walk S) → Few k w → f a w ≡ g a w)
      → (elim r as (λ r'. Step S B) [
        | next a w' ↦ f a w'
        | bad e w' ↦ bad e w'
        | refused e w' ↦ refused e w'
        | crashed t ↦ crashed t
        | died t ↦ died t
      ])
        ≡ (elim r as (λ r'. Step S B) [
          | next a w' ↦ g a w'
          | bad e w' ↦ bad e w'
          | refused e w' ↦ refused e w'
          | crashed t ↦ crashed t
          | died t ↦ died t
        ])
  same_step f g (at_next i) e = e _ _ i
  same_step f g (at_bad i) e = refl
  same_step f g (at_refused i) e = refl
  same_step f g at_crashed e = refl
  same_step f g (at_died d) e = refl

  pub same_after :
      {A B : Type 0} (k : ℕ) (m : Visit S A) (f g : A → Visit S B) (w : Walk S)
      → Keeps k (m w)
      → ((a : A) (w' : Walk S) → Few k w' → f a w' ≡ g a w')
      → (m >>= f) w ≡ (m >>= g) w
  unfolding ◌>>=◌
  same_after k m f g w keeps e = same_step f g keeps e

  pub same_first :
      {A B : Type 0} (m n : Visit S A) (f : A → Visit S B) (w : Walk S)
      → m w ≡ n w
      → (m >>= f) w ≡ (n >>= f) w
  unfolding ◌>>=◌
  same_first {A} {B} m n f w p =
      ap
        (λ (r : Step S A). elim r as (λ r'. Step S B) [
          | next a w' ↦ f a w'
          | bad e w' ↦ bad e w'
          | refused e w' ↦ refused e w'
          | crashed t ↦ crashed t
          | died t ↦ died t
        ])
        p
