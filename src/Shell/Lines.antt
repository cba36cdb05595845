-- ===== src/Shell/Lines.antt =====
-- How `rl_gets` of sh/hivexsh.c reads a line without readline.
use hivex.Base.{
  ℕ, zero, suc, ◌<◌, ◌≤◌, ◌≡◌, ◌≢◌, refl, ap, ◌∙◌, arith, false, Bool-cases, inl, inr, Option, none,
  some, List, [], ◌∷◌, ◌++◌, All, ◌==◌, if◌then◌else◌, length,
}
use hivex.CString.{c_string}

-- `fgets` with room for `n` bytes: up to the first newline, which is kept, and the rest.
unfoldable pub fgets : ℕ → List ℕ → List ℕ × List ℕ
fgets zero xs = ([], xs)
fgets (suc n) [] = ([], [])
fgets (suc n) (c ∷ cs) = let r = fgets n cs in if c == 10 then (c ∷ [], cs) else (c ∷ r.0, r.1)

-- A newline at the end is dropped.
unfoldable pub chomp : List ℕ → List ℕ
chomp [] = []
chomp (c ∷ []) = if c == 10 then [] else c ∷ []
chomp (c ∷ d ∷ ds) = c ∷ chomp (d ∷ ds)

-- `sizeof buf - 1`
abbrev pub line_room : ℕ
line_room = 8191

-- The line, and what is still to be read; none at the end of the input. A longer line comes in
-- pieces.
unfoldable pub rl_gets : List ℕ → Option (List ℕ × List ℕ)
rl_gets [] = none
rl_gets (c ∷ cs) = let r = fgets line_room (c ∷ cs) in some (chomp (c_string r.0), r.1)

fgets-less : (n : ℕ) (xs : List ℕ) → length (fgets n xs).1 ≤ length xs
unfolding fgets
fgets-less zero xs = omega arith
fgets-less (suc n) [] = omega arith
fgets-less (suc n) (c ∷ cs) = elim (Bool-cases (c == 10)) [
  | inl e ↦ rw e (omega arith)
  | inr e ↦ rw e (omega (arith, fgets-less n cs))
]

fgets-shorter : (n : ℕ) (c : ℕ) (cs : List ℕ) → length (fgets (suc n) (c ∷ cs)).1 < suc (length cs)
unfolding fgets
fgets-shorter n c cs = elim (Bool-cases (c == 10)) [
  | inl e ↦ rw e (omega arith)
  | inr e ↦ rw e (omega (arith, fgets-less n cs))
]

abbrev rest_of : Option (List ℕ × List ℕ) → List ℕ
rest_of none = []
rest_of (some r) = r.1

-- Every line takes a byte at least.
pub rl_gets-shorter :
    (xs line rest : List ℕ) → rl_gets xs ≡ some (line, rest) → length rest < length xs
unfolding rl_gets
rl_gets-shorter [] line rest e = absurd (cc)
rl_gets-shorter (c ∷ cs) line rest e =
    omega (arith, ap (λ o. length (rest_of o)) e, fgets-shorter 8190 c cs)

-- A byte of a line of text.
abbrev pub IsText : ℕ → Type 0
IsText c = (c ≢ 0) × (c ≢ 10)

fgets-line :
    (n : ℕ) (xs rest : List ℕ)
    → All IsText xs
    → length xs < n
    → fgets n (xs ++ (10 ∷ rest)) ≡ (xs ++ (10 ∷ []), rest)
unfolding fgets
fgets-line zero xs rest text room = absurd (omega arith)
fgets-line (suc n) [] rest text room = refl
fgets-line (suc n) (x ∷ xs) rest ((p, q), text) room =
    let plain : (x == 10) ≡ false = ground (arith, q) in
    rw (plain, fgets-line n xs rest text (omega arith)) refl

whole_string : (xs : List ℕ) → All IsText xs → c_string (xs ++ (10 ∷ [])) ≡ xs ++ (10 ∷ [])
unfolding c_string
whole_string [] text = refl
whole_string (x ∷ xs) ((p, q), text) =
    let plain : (x == 0) ≡ false = ground (arith, p) in rw (plain, whole_string xs text) refl

chomp-append : (xs : List ℕ) → chomp (xs ++ (10 ∷ [])) ≡ xs
unfolding chomp
chomp-append [] = refl
chomp-append (x ∷ []) = refl
chomp-append (x ∷ y ∷ ys) = ap (λ l. x ∷ l) (chomp-append (y ∷ ys))

-- What `rl_gets` makes of the buffer.
abbrev line_of : List ℕ × List ℕ → Option (List ℕ × List ℕ)
line_of r = some (chomp (c_string r.0), r.1)

chomp-line :
    (xs rest : List ℕ)
    → All IsText xs
    → length xs < line_room
    → line_of (fgets line_room (xs ++ (10 ∷ rest))) ≡ some (xs, rest)
chomp-line xs rest text room =
    ap line_of (fgets-line line_room xs rest text room)
    ∙ ap (λ l. keep_rest (chomp l)) (whole_string xs text)
    ∙ ap keep_rest (chomp-append xs)
  where
    keep_rest : List ℕ → Option (List ℕ × List ℕ)
    keep_rest l = some (l, rest)

-- A line that fits into the buffer is read whole.
pub rl_gets-line :
    (xs rest : List ℕ)
    → All IsText xs
    → length xs < line_room
    → rl_gets (xs ++ (10 ∷ rest)) ≡ some (xs, rest)
unfolding rl_gets
rl_gets-line [] rest text room = chomp-line [] rest text room
rl_gets-line (x ∷ xs) rest text room = chomp-line (x ∷ xs) rest text room
