-- ===== src/CString/Laws.antt =====
-- When two strings are equal for `strcasecmp`.
use Prim.Native.Nat.{compare, Ordering}
use Prim.Native.Nat.compare as compare_ℕ
use hivex.Base.{ℕ, zero, suc, ◌≡◌, refl, true, false, List, [], ◌∷◌, ap, sym, ◌∙◌}
use hivex.CString.{c_string, to_lower, case_compare, strcasecmp, strcaseeq}

-- Each letter in lower case.
unfoldable pub lowered : List ℕ → List ℕ
lowered [] = []
lowered (x ∷ xs) = to_lower x ∷ lowered xs

compare_self : (n : ℕ) → compare n n ≡ Ordering.eq
compare_self zero = compare_ℕ.zero-zero
compare_self (suc n) = compare_ℕ.suc-suc n n ∙ compare_self n

eq_of_compare : (m n : ℕ) → compare m n ≡ Ordering.eq → m ≡ n
eq_of_compare zero zero e = refl
eq_of_compare zero (suc n) e = absurd (cc (sym (compare_ℕ.zero-suc n) ∙ e))
eq_of_compare (suc m) zero e = absurd (cc (sym (compare_ℕ.suc-zero m) ∙ e))
eq_of_compare (suc m) (suc n) e = ap suc (eq_of_compare m n (sym (compare_ℕ.suc-suc m n) ∙ e))

-- The order of two strings from that of their first characters and that of the rest.
abbrev pub lexicographic : Ordering → Ordering → Ordering
lexicographic Ordering.eq r = r
lexicographic Ordering.lt r = Ordering.lt
lexicographic Ordering.gt r = Ordering.gt

lexicographic-eq :
    (o r : Ordering) → lexicographic o r ≡ Ordering.eq → (o ≡ Ordering.eq) × (r ≡ Ordering.eq)
lexicographic-eq Ordering.eq r e = (refl, e)
lexicographic-eq Ordering.lt r e = absurd (cc)
lexicographic-eq Ordering.gt r e = absurd (cc)

pub case_compare-cons :
    (x y : ℕ) (xs ys : List ℕ)
    → case_compare (x ∷ xs) (y ∷ ys)
      ≡ lexicographic (compare (to_lower x) (to_lower y)) (case_compare xs ys)
unfolding case_compare
case_compare-cons x y xs ys = as_elim (compare (to_lower x) (to_lower y)) (case_compare xs ys)
  where
    as_elim :
        (o r : Ordering)
        → (elim o [ Ordering.eq ↦ r | Ordering.lt ↦ Ordering.lt | Ordering.gt ↦ Ordering.gt ])
          ≡ lexicographic o r
    as_elim Ordering.eq r = refl
    as_elim Ordering.lt r = refl
    as_elim Ordering.gt r = refl

case_compare-eq : (a b : List ℕ) → case_compare a b ≡ Ordering.eq → lowered a ≡ lowered b
unfolding case_compare lowered
case_compare-eq [] [] e = refl
case_compare-eq [] (y ∷ ys) e = absurd (cc)
case_compare-eq (x ∷ xs) [] e = absurd (cc)
case_compare-eq (x ∷ xs) (y ∷ ys) e =
    let (p, q) = lexicographic-eq _ _ (sym (case_compare-cons x y xs ys) ∙ e) in
    let head : to_lower x ≡ to_lower y = eq_of_compare (to_lower x) (to_lower y) p in
    let tail = case_compare-eq xs ys q in cc

case_compare_same : (a b : List ℕ) → lowered a ≡ lowered b → case_compare a b ≡ Ordering.eq
unfolding case_compare lowered
case_compare_same [] [] e = refl
case_compare_same [] (y ∷ ys) e = absurd (cc)
case_compare_same (x ∷ xs) [] e = absurd (cc)
case_compare_same (x ∷ xs) (y ∷ ys) e =
    let head : to_lower x ≡ to_lower y = cc in
    let tail : lowered xs ≡ lowered ys = cc in
    let first : compare (to_lower x) (to_lower y) ≡ Ordering.eq =
      rw head (compare_self (to_lower y)) in
    case_compare-cons x y xs ys
    ∙ ap (λ o. lexicographic o (case_compare xs ys)) first
    ∙ case_compare_same xs ys tail

-- `STRCASEEQ` holds of two strings exactly when they are the same, up to their first NUL, with
-- every letter in lower case.
pub strcaseeq_iff :
    (a b : List ℕ)
    → (strcaseeq a b ≡ true → lowered (c_string a) ≡ lowered (c_string b))
      × (lowered (c_string a) ≡ lowered (c_string b) → strcaseeq a b ≡ true)
unfolding strcaseeq strcasecmp
strcaseeq_iff a b = (
  λ e. case_compare-eq _ _ (is_eq (case_compare (c_string a) (c_string b)) e),
  λ e. rw (strcaseeq, strcasecmp, case_compare_same (c_string a) (c_string b) e) refl,
)
  where
    is_eq : (o : Ordering) → (elim o [ Ordering.eq ↦ true | _ ↦ false ]) ≡ true → o ≡ Ordering.eq
    is_eq Ordering.eq e = refl
    is_eq Ordering.lt e = absurd (cc)
    is_eq Ordering.gt e = absurd (cc)
