-- ===== src/Visit/Value.antt =====
-- The loop over the values of a node in `hivex__visit_node`.
use hivex.Base.{ℕ, ◌-◌, ◌^◌, ◌||◌, Option, none, some, List, [], ◌∷◌, ◌==◌, if◌then◌else◌, length}
use hivex.Hive.{Errno, other}
use hivex.HiveType
use hivex.Value.{Content, value_type, value_key, value_value, value_dword, value_qword}
use hivex.Strings.{Iconv, value_string, value_multiple_strings}
use hivex.Visit.{
  Callback, ValueInfo, Visitor, Visit, pure, fail, ◌>>=◌, ◌>>◌, query, attempt, call, call_if,
  is_invalid, or_minus_one, given,
}

-- The arguments with the type and the length that `hivex_value_value` has set.
abbrev pub with_content : ValueInfo → Content → ValueInfo
with_content info v = record info { type = v.type; len = length v.bytes }

module _ {S : Type 0} (ic : Iconv) (vtor : Visitor S) where
  -- The whole data for a callback.
  unfoldable pub visit_bytes :
      Option (ValueInfo → List ℕ → Callback S) → ValueInfo → Visit S (Unit {0})
  visit_bytes cb info = do
    v ← query (value_value info.value)
    call_if (given cb (with_content info v)) v.bytes

  -- The same for the types whose type is compared again.
  unfoldable pub visit_typed :
      ℕ → Option (ValueInfo → List ℕ → Callback S) → ValueInfo → Visit S (Unit {0})
  visit_typed t cb info = do
    v ← query (value_value info.value)
    if v.type == t then call_if (given cb (with_content info v)) v.bytes else fail (other 0)

  -- The string could not be converted.
  unfoldable pub visit_invalid : ValueInfo → Visit S (Unit {0})
  visit_invalid info = elim vtor.string_invalid_utf16_cb [
    | none ↦ pure tt
    | some cb ↦ do
      (v, e) ← attempt (value_value info.value)
      elim v [
        | some v' ↦ call (cb (with_content info v') (some v'.bytes))
        | none ↦ call (cb info none)
      ]
  ]

  -- A conversion that fails with EILSEQ or EINVAL is no error of the walk.
  unfoldable pub visit_text :
      {X : Type 0} → ValueInfo → Option X × Errno → Option (X → Callback S) → Visit S (Unit {0})
  visit_text info (some s, e) cb = call_if cb s
  visit_text info (none, e) cb = if is_invalid e then visit_invalid info else fail e

  unfoldable pub visit_string : ValueInfo → Visit S (Unit {0})
  visit_string info = do
    r ← attempt (value_string ic info.value)
    visit_text info r (given vtor.string_cb info)

  unfoldable pub visit_multiple_strings : ValueInfo → Visit S (Unit {0})
  visit_multiple_strings info = do
    r ← attempt (value_multiple_strings ic info.value)
    visit_text info r (given vtor.multiple_strings_cb info)

  -- The errors of `hivex_value_dword` and `hivex_value_qword` are not looked at.
  unfoldable pub visit_dword : ValueInfo → Visit S (Unit {0})
  visit_dword info = do
    (v, e) ← attempt (value_dword info.value)
    call_if (given vtor.dword_cb info) (or_minus_one (2 ^ 32 - 1) v)

  unfoldable pub visit_qword : ValueInfo → Visit S (Unit {0})
  visit_qword info = do
    (v, e) ← attempt (value_qword info.value)
    call_if (given vtor.qword_cb info) (or_minus_one (2 ^ 64 - 1) v)

  -- The `switch` on the type.
  unfoldable pub visit_switch : ℕ → ValueInfo → Visit S (Unit {0})
  visit_switch t info =
      if t == HiveType.none
      then visit_typed HiveType.none vtor.none_cb info
      else if t == HiveType.string || t == HiveType.expand_string || t == HiveType.link
      then visit_string info
      else if t == HiveType.dword || t == HiveType.dword_be
      then visit_dword info
      else if t == HiveType.qword
      then visit_qword info
      else if t == HiveType.binary
      then visit_typed HiveType.binary vtor.binary_cb info
      else if t == HiveType.multiple_strings
      then visit_multiple_strings info
      else visit_bytes vtor.other_cb info

  unfoldable pub visit_value : ℕ → ℕ → Visit S (Unit {0})
  visit_value node value = do
    (t, len) ← query (value_type value)
    key ← query (value_key value)
    let info : ValueInfo = record { node = node; value = value; type = t; len = len; key = key }
    elim vtor.any_cb [ some cb ↦ visit_bytes (some cb) info | none ↦ visit_switch t info ]

  unfoldable pub visit_values : ℕ → List ℕ → Visit S (Unit {0})
  visit_values node [] = pure tt
  visit_values node (value ∷ values) = do visit_value node value; visit_values node values
