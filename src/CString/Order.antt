-- ===== src/CString/Order.antt =====
-- The order of `strcasecmp`, as a relation between strings.
use Prim.Native.Nat.{compare, Ordering}
use hivex.Base.{ℕ, ◌<◌, ◌≡◌, ◌⊎◌, inl, inr, refl, sym, ◌∙◌, arith, List, [], ◌∷◌}
use hivex.CString.{c_string, to_lower, case_compare, strcasecmp}
use hivex.CString.Laws.{lexicographic, case_compare-cons}

-- The first string comes before the second in the order of a dictionary, whatever the case of their
-- letters: it ends first, or has the smaller byte at the first place where they differ.
abbrev pub Before : List ℕ → List ℕ → Type 0
Before [] [] = ⊥
Before [] (d ∷ ds) = Unit {0}
Before (c ∷ cs) [] = ⊥
Before (c ∷ cs) (d ∷ ds) = (to_lower c < to_lower d) ⊎ ((to_lower c ≡ to_lower d) × Before cs ds)

lexicographic-lt :
    (c d : ℕ) (r : Ordering)
    → lexicographic (compare c d) r ≡ Ordering.lt
    → (c < d) ⊎ ((c ≡ d) × (r ≡ Ordering.lt))
lexicographic-lt c d r e = ground (arith, e)

lt-lexicographic :
    (c d : ℕ) (r : Ordering)
    → (c < d) ⊎ ((c ≡ d) × (r ≡ Ordering.lt))
    → lexicographic (compare c d) r ≡ Ordering.lt
lt-lexicographic c d r e = ground (arith, e)

case_compare-Before : (a b : List ℕ) → case_compare a b ≡ Ordering.lt → Before a b
unfolding case_compare
case_compare-Before [] [] e = absurd (cc)
case_compare-Before [] (d ∷ ds) e = tt
case_compare-Before (c ∷ cs) [] e = absurd (cc)
case_compare-Before (c ∷ cs) (d ∷ ds) e =
    by_first (lexicographic-lt _ _ _ (sym (case_compare-cons c d cs ds) ∙ e))
      (case_compare-Before cs ds)
  where
    by_first :
        (to_lower c < to_lower d) ⊎ ((to_lower c ≡ to_lower d) × (case_compare cs ds ≡ Ordering.lt))
        → (case_compare cs ds ≡ Ordering.lt → Before cs ds)
        → Before (c ∷ cs) (d ∷ ds)
    by_first (inl less) rest = inl less
    by_first (inr (same, e')) rest = inr (same, rest e')

Before-case_compare : (a b : List ℕ) → Before a b → case_compare a b ≡ Ordering.lt
unfolding case_compare
Before-case_compare [] [] p = absurd p
Before-case_compare [] (d ∷ ds) p = refl
Before-case_compare (c ∷ cs) [] p = absurd p
Before-case_compare (c ∷ cs) (d ∷ ds) (inl less) =
    case_compare-cons c d cs ds ∙ lt-lexicographic _ _ _ (inl less)
Before-case_compare (c ∷ cs) (d ∷ ds) (inr (same, p)) =
    case_compare-cons c d cs ds ∙ lt-lexicographic _ _ _ (inr (same, Before-case_compare cs ds p))

pub strcasecmp-Before :
    (a b : List ℕ) → strcasecmp a b ≡ Ordering.lt → Before (c_string a) (c_string b)
unfolding strcasecmp
strcasecmp-Before a b = case_compare-Before (c_string a) (c_string b)

pub Before-strcasecmp :
    (a b : List ℕ) → Before (c_string a) (c_string b) → strcasecmp a b ≡ Ordering.lt
unfolding strcasecmp
Before-strcasecmp a b = Before-case_compare (c_string a) (c_string b)
