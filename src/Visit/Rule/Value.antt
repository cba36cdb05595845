-- ===== src/Visit/Rule/Value.antt =====
-- The invariant rule for the values of a node: each callback is called for the types that it is for.
use hivex.Base.{ℕ, ◌≡◌, sym, ap, ◌∙◌, arith, true, ◌||◌, Option, none, some, List, [], ◌∷◌, ◌==◌}
use mathlib.Core.Path.{subst}
use hivex.Hive.{Hive, Trap, Read, ok}
use hivex.Hive.Reader.Laws.{after, ok-injective}
use hivex.Hive.Memory.Laws.{load32-eq-ok}
use hivex.HiveType
use hivex.Value.Sound.{value_value-IsContent}
use hivex.Value.{Content, value_type, value_key, value_value, value_dword, value_qword}
use hivex.Strings.{Iconv, value_string, value_multiple_strings}
use hivex.Visit.{
  Callback, ValueInfo, Visitor, Walk, Visit, pure, ◌>>=◌, attempt, call, call_if, given,
  or_minus_one, is_invalid,
}
use hivex.Visit.Value.{
  with_content, visit_bytes, visit_typed, visit_invalid, visit_text, visit_string,
  visit_multiple_strings, visit_dword, visit_qword, visit_switch, visit_value, visit_values,
}
use hivex.Visit.Rule.{
  Holds, at_next, at_bad, Safe, ValuesObey, IsOther, is_text, is_dword, bind-Safe, query-Holds,
  attempt-Holds, if-Holds, pure-Safe,
}

-- `hivex_value_value` finds the type that `hivex_value_type` has found.
content_type :
    (h : Hive) (value t l : ℕ) (v : Content)
    → value_type value h ≡ ok (t, l)
    → value_value value h ≡ ok v
    → v.type ≡ t
unfolding value_type
content_type h value t l v p q = after h _ _ p λ u checked p1. after h _ _ p1 λ word read p2.
    after h _ _ p2 λ len read_len p3.
      let (_, found) = load32-eq-ok _ h read in
      let same : word ≡ t = ap (λ (r : ℕ × ℕ). r.0) (ok-injective p3) in
      (value_value-IsContent h value v q).type_is ∙ sym found ∙ same

module _ {S : Type 0} (I : Walk S → Type 0) (D : Trap → Type 0) (ic : Iconv) (vtor : Visitor S)
    (obeys : ValuesObey I D vtor) where
  abbrev BytesCallback : Type 0
  BytesCallback = Option (ValueInfo → List ℕ → Callback S)

  visit_bytes-Holds :
      (cb : BytesCallback) (i : ValueInfo) (w : Walk S)
      → I w
      → ((v : Content)
          → value_value i.value w.hive ≡ ok v
          → Holds I D (call_if (given cb (with_content i v)) v.bytes w))
      → Holds I D (visit_bytes ic vtor cb i w)
  unfolding visit_bytes
  visit_bytes-Holds cb i w inv each = query-Holds I D (value_value i.value) _ w inv each

  visit_typed-Holds :
      (t : ℕ) (cb : BytesCallback) (i : ValueInfo) (w : Walk S)
      → I w
      → ((j : ValueInfo) (s : List ℕ) → (j.type == t) ≡ true → Safe I D (call_if (given cb j) s))
      → Holds I D (visit_typed ic vtor t cb i w)
  unfolding visit_typed
  visit_typed-Holds t cb i w inv each = query-Holds I D (value_value i.value) _ w inv λ v read.
      if-Holds I D (v.type == t) _ _ w (λ same. each (with_content i v) v.bytes same w inv)
        λ differs. at_bad inv

  module _ (i : ValueInfo) (w : Walk S) (inv : I w) (l : ℕ)
      (typed : value_type i.value w.hive ≡ ok (i.type, l)) where
    -- The type of the data is that of the value.
    same_type : (v : Content) → value_value i.value w.hive ≡ ok v → v.type ≡ i.type
    same_type v read = content_type w.hive i.value i.type l v typed read

    visit_invalid-Holds :
        (is_text i.type || i.type == HiveType.multiple_strings) ≡ true
        → Holds I D (visit_invalid ic vtor i w)
    unfolding visit_invalid call_if
    visit_invalid-Holds kind = by_callback vtor.string_invalid_utf16_cb obeys.string_invalid
      where
        by_callback :
            (o : Option (ValueInfo → Option (List ℕ) → Callback S))
            → ((j : ValueInfo) (s : Option (List ℕ))
                → (is_text j.type || j.type == HiveType.multiple_strings) ≡ true
                → Safe I D (call_if (given o j) s))
            → Holds I D (
                (elim o as (λ o'. Visit S (Unit {0})) [
                  | none ↦ pure tt
                  | some cb ↦ attempt (value_value i.value) >>= λ (v, e).
                      elim v as (λ v'. Visit S (Unit {0})) [
                        | some v' ↦ call (cb (with_content i v') (some v'.bytes))
                        | none ↦ call (cb i none)
                      ]
                ])
                  w)
        by_callback none safe = at_next inv
        by_callback (some cb) safe =
            attempt-Holds I D (value_value i.value) _ w
              (λ v read.
                safe (with_content i v) (some v.bytes)
                  (subst (λ t. (is_text t || t == HiveType.multiple_strings) ≡ true)
                    (sym (same_type v read)) kind)
                  w inv)
              λ e. safe i none kind w inv

    visit_text-Holds :
        {X : Type 0} (r : Read X) (cb : Option (X → Callback S))
        → (is_text i.type || i.type == HiveType.multiple_strings) ≡ true
        → ((s : X) → Safe I D (call_if cb s))
        → Holds I D ((attempt r >>= λ x. visit_text ic vtor i x cb) w)
    unfolding visit_text
    visit_text-Holds r cb kind each =
        attempt-Holds I D r _ w (λ s read. each s w inv)
          λ e. if-Holds I D (is_invalid e) _ _ w (λ c. visit_invalid-Holds kind) λ c. at_bad inv

    switch_other : IsOther i.type → Holds I D (visit_bytes ic vtor vtor.other_cb i w)
    switch_other kind = visit_bytes-Holds vtor.other_cb i w inv λ v read.
        obeys.other_value (with_content i v) v.bytes (subst IsOther (sym (same_type v read)) kind) w
          inv

    visit_number-Holds :
        (r : Read ℕ) (minus_one : ℕ) (cb : Option (ℕ → Callback S))
        → ((v : ℕ) → Safe I D (call_if cb v))
        → Holds I D ((attempt r >>= λ (v, e). call_if cb (or_minus_one minus_one v)) w)
    visit_number-Holds r minus_one cb each =
        attempt-Holds I D r _ w (λ v read. each v w inv) λ e. each minus_one w inv

    visit_switch-Holds : Holds I D (visit_switch ic vtor i.type i w)
    unfolding visit_switch visit_string visit_multiple_strings visit_dword visit_qword
    visit_switch-Holds =
        if-Holds I D (i.type == HiveType.none) _ _ w
          (λ t. visit_typed-Holds HiveType.none vtor.none_cb i w inv obeys.none_value)
          λ n1.
            if-Holds I D (is_text i.type) _ _ w
              (λ t.
                visit_text-Holds (value_string ic i.value) _ (ground (arith, t))
                  (λ s. obeys.string i s t))
              λ n2.
                if-Holds I D (is_dword i.type) _ _ w
                  (λ t. visit_number-Holds (value_dword i.value) _ _ λ v. obeys.dword i v t)
                  λ n3.
                    if-Holds I D (i.type == HiveType.qword) _ _ w
                      (λ t. visit_number-Holds (value_qword i.value) _ _ λ v. obeys.qword i v t)
                      λ n4.
                        if-Holds I D (i.type == HiveType.binary) _ _ w
                          (λ t.
                            visit_typed-Holds HiveType.binary vtor.binary_cb i w inv obeys.binary)
                          λ n5.
                            if-Holds I D (i.type == HiveType.multiple_strings) _ _ w
                              (λ t.
                                visit_text-Holds (value_multiple_strings ic i.value) _
                                  (ground (arith, t)) λ s. obeys.multiple_strings i s t)
                              λ n6. switch_other (record {
                                not_none = n1;
                                not_text = n2;
                                not_dword = n3;
                                not_qword = n4;
                                not_binary = n5;
                                not_strings = n6;
                              })

  visit_value-Safe : (node value : ℕ) → Safe I D (visit_value ic vtor node value)
  unfolding visit_value
  visit_value-Safe node value w inv = query-Holds I D (value_type value) _ w inv λ (t, len) typed.
      query-Holds I D (value_key value) _ w inv λ key read.
        by_callback vtor.any_cb obeys.any_value
          (record { node = node; value = value; type = t; len = len; key = key }) len typed
    where
      by_callback :
          (o : BytesCallback)
          → ((j : ValueInfo) (s : List ℕ) → Safe I D (call_if (given o j) s))
          → (i : ValueInfo) (l : ℕ) → value_type i.value w.hive ≡ ok (i.type, l)
          → Holds I D (
              (elim o as (λ o'. Visit S (Unit {0})) [
                | some cb ↦ visit_bytes ic vtor (some cb) i
                | none ↦ visit_switch ic vtor i.type i
              ])
                w)
      by_callback (some cb) safe i l typed =
          visit_bytes-Holds (some cb) i w inv λ v read. safe (with_content i v) v.bytes w inv
      by_callback none safe i l typed = visit_switch-Holds i w inv l typed

  pub visit_values-Safe : (node : ℕ) (values : List ℕ) → Safe I D (visit_values ic vtor node values)
  unfolding visit_values
  visit_values-Safe node [] = pure-Safe I D
  visit_values-Safe node (v ∷ vs) =
      bind-Safe I D _ _ (visit_value-Safe node v) λ _. visit_values-Safe node vs
