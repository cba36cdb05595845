-- ===== src/CString.antt =====
-- What the code uses of the C library's byte strings, in the C locale. A string is the list of its
-- bytes before the NUL.
pub mod Laws
pub mod Order
use Prim.Native.Nat.{compare, Ordering}
use hivex.Base.{ℕ, ◌+◌, ◌-◌, Bool, true, false, ◌&&◌, List, [], ◌∷◌, leb, ◌==◌, if◌then◌else◌}

-- The string that begins in a buffer: all before its first NUL.
unfoldable pub c_string : List ℕ → List ℕ
c_string [] = []
c_string (c ∷ cs) = if c == 0 then [] else c ∷ c_string cs

unfoldable pub to_lower : ℕ → ℕ
to_lower c = if leb b'A' c && leb c b'Z' then c + 32 else c

unfoldable pub to_upper : ℕ → ℕ
to_upper c = if leb b'a' c && leb c b'z' then c - 32 else c

unfoldable pub case_compare : List ℕ → List ℕ → Ordering
unfolding to_lower
case_compare [] [] = Ordering.eq
case_compare [] (y ∷ ys) = Ordering.lt
case_compare (x ∷ xs) [] = Ordering.gt
case_compare (x ∷ xs) (y ∷ ys) = elim (compare (to_lower x) (to_lower y)) [
  | Ordering.eq ↦ case_compare xs ys
  | Ordering.lt ↦ Ordering.lt
  | Ordering.gt ↦ Ordering.gt
]

-- The sign of `strcasecmp (a, b)`.
unfoldable pub strcasecmp : List ℕ → List ℕ → Ordering
strcasecmp a b = case_compare (c_string a) (c_string b)

-- `STRCASEEQ (a, b)`
unfoldable pub strcaseeq : List ℕ → List ℕ → Bool
strcaseeq a b = elim (strcasecmp a b) [ Ordering.eq ↦ true | _ ↦ false ]
