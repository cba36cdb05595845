-- ===== src/SetValues/Replace.antt =====
-- What `hivex_node_set_value` makes of the list of values.
use hivex.Base.{
  ℕ, ◌+◌, ◌≡◌, refl, arith, true, false, Option, none, some, List, [], ◌∷◌, ◌++◌, if◌then◌else◌,
  length, All, ap, ◌∙◌, ◌⊎◌, inl, inr, Bool-cases,
}
use hivex.CString.{strcaseeq}
use hivex.SetValues.{SetValue, last_match, replace_at, merge_value}

abbrev pub IsOther : List ℕ → SetValue → Type 0
IsOther key w = strcaseeq w.key key ≡ false

-- The last value whose key fits stands between these.
pub record IsLast (key : List ℕ) (vs : List SetValue) : Type 0 where
  pub before : List SetValue
  pub old : SetValue
  pub behind : List SetValue
  pub split : vs ≡ before ++ (old ∷ behind)
  pub fits : strcaseeq old.key key ≡ true
  pub no_later : All (IsOther key) behind

module _ (key : List ℕ) where
  -- Either no value fits, and the index found before stands, or the index is that of the last one.
  last_match_cases :
      (i : ℕ) (vs : List SetValue) (found : Option ℕ)
      → (All (IsOther key) vs × (last_match key i vs found ≡ found))
        ⊎ ((l : IsLast key vs) × (last_match key i vs found ≡ some (i + length l.before)))
  unfolding last_match
  last_match_cases i [] found = inl (tt, refl)
  last_match_cases i (v ∷ vs) found =
      elim (last_match_cases (i + 1) vs (if strcaseeq v.key key then some i else found)) [
        | inr (l, e) ↦ inr (
          record {
            before = v ∷ l.before;
            old = l.old;
            behind = l.behind;
            split = ap (λ r. v ∷ r) l.split;
            fits = l.fits;
            no_later = l.no_later;
          },
          e ∙ ap some (omega arith),
        )
        | inl (others, e) ↦ elim (Bool-cases (strcaseeq v.key key)) [
          | inl same ↦ inr (
            record {
              before = [];
              old = v;
              behind = vs;
              split = refl;
              fits = same;
              no_later = others;
            },
            e ∙ rw same (ap some (omega arith)),
          )
          | inr other ↦ inl ((other, others), e ∙ rw other refl)
        ]
      ]

replace_at-append :
    (v old : SetValue) (before behind : List SetValue)
    → replace_at (length before) v (before ++ (old ∷ behind)) ≡ before ++ (v ∷ behind)
unfolding replace_at
replace_at-append v old [] behind = refl
replace_at-append v old (w ∷ ws) behind = ap (λ r. w ∷ r) (replace_at-append v old ws behind)

-- The values that `hivex_node_set_value` sets: if no old value has the key, in whatever case,
-- they are the old values with the new one at the end; otherwise the old values with the new one
-- in the place of the last value of the key.
pub merge_value_cases :
    (v : SetValue) (vs : List SetValue)
    → (All (IsOther v.key) vs × (merge_value v vs ≡ vs ++ (v ∷ [])))
      ⊎ ((l : IsLast v.key vs) × (merge_value v vs ≡ l.before ++ (v ∷ l.behind)))
unfolding merge_value
merge_value_cases v vs = elim (last_match_cases v.key 0 vs none) [
  | inl (others, e) ↦ inl (others, rw (merge_value, e) refl)
  | inr (l, e) ↦
      let at : last_match v.key 0 vs none ≡ some (length l.before) = e ∙ ap some (omega arith) in
      inr (
        l,
        rw (merge_value, at)
            (ap (replace_at (length l.before) v) l.split
              ∙ replace_at-append v l.old l.before l.behind),
      )
]
