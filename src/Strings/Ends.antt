-- ===== src/Strings/Ends.antt =====
-- The loops of the conversion of strings end.
use hivex.Base.{
  ℕ, zero, suc, ◌*◌, ◌%◌, ◌^◌, ◌≤◌, ◌<◌, ◌≡◌, ◌≢◌, refl, arith, Option, none, some, List, [], ◌∷◌,
  ltb, if◌then◌else◌, length, Bool-cases, inl, inr,
}
use hivex.Hive.{Hive, Errno, e2big, Read}
use hivex.Hive.Reader.{pure, throw}
use hivex.Hive.Reader.Ends.{Ends, bind-Ends, require-Ends}
use hivex.Strings.{
  Conversion, converted, refused, too_big, Iconv, convert_loop, windows_utf16_to_utf8,
}

-- `a`, doubled `n` times.
unfoldable doubled : ℕ → ℕ → ℕ
doubled zero a = a
doubled (suc n) a = doubled n (a * 2)

doubled_mono : (n a b : ℕ) → a ≤ b → doubled n a ≤ doubled n b
unfolding doubled
doubled_mono zero a b p = p
doubled_mono (suc n) a b p = doubled_mono n (a * 2) (b * 2) (omega arith)

one_doubled : 2 ^ 64 ≤ doubled 65 1
unfolding doubled
one_doubled = omega arith

enough_rounds : (n : ℕ) → 1 ≤ n → 2 ^ 64 ≤ doubled 65 n
enough_rounds n p = omega (arith, doubled_mono 65 1 n p, one_doubled)

-- No conversion of an empty input needs more room.
abbrev pub IsSane : Iconv → Type 0
IsSane ic = (room : ℕ) → ic.convert [] room ≢ too_big

module _ (ic : Iconv) (h : Hive) where
  abbrev again : ℕ → List ℕ → ℕ → Read (List ℕ)
  again n input a =
      if ltb (a * 2 % 2 ^ 64) a then throw e2big else convert_loop ic n input (a * 2 % 2 ^ 64)

  answered-Ends :
      (n : ℕ) (input : List ℕ) (a : ℕ) (c : Conversion)
      → (c ≡ too_big → Ends (again n input a h))
      → Ends (
          (elim c as (λ c'. Read (List ℕ)) [
            | converted out ↦ pure out
            | refused e ↦ throw e
            | too_big ↦ again n input a
          ])
            h)
  answered-Ends n input a (converted out) k = λ q. ground arith
  answered-Ends n input a (refused e) k = λ q. ground arith
  answered-Ends n input a too_big k = k refl

  -- The size of the buffer overflows before the rounds run out.
  convert_loop-Ends :
      (n : ℕ) (input : List ℕ) (a : ℕ)
      → a < 2 ^ 64
      → 2 ^ 64 ≤ doubled n a
      → Ends (convert_loop ic (suc n) input a h)
  unfolding convert_loop doubled
  convert_loop-Ends zero input a small enough = absurd (omega arith)
  convert_loop-Ends (suc n) input a small enough = bind-Ends h _ _ (require-Ends h _ _) λ _ _.
      answered-Ends (suc n) input a (ic.convert input a) λ _.
        elim (Bool-cases (ltb (a * 2 % 2 ^ 64) a)) [
          | inl over ↦ rw over (λ q. ground arith)
          | inr fits ↦
              let whole : a * 2 % 2 ^ 64 ≡ a * 2 = ground arith in
              rw fits (convert_loop-Ends n input (a * 2 % 2 ^ 64) (omega arith) (rw whole enough))
        ]

  -- An empty input is converted, or refused, at once.
  convert_empty-Ends : (n : ℕ) → IsSane ic → Ends (convert_loop ic (suc n) [] 0 h)
  unfolding convert_loop
  convert_empty-Ends n sane =
      bind-Ends h _ _ (require-Ends h _ _)
        λ _ _. answered-Ends n [] 0 (ic.convert [] 0) λ big. absurd (sane 0 big)

-- If `iconv` needs no room for an empty input, the loop of `windows_utf16_to_utf8` ends on every
-- input of less than 2^64 bytes, whatever else `iconv` answers: 66 rounds are enough.
pub windows_utf16_to_utf8-Ends :
    (ic : Iconv) (h : Hive) (input : List ℕ)
    → IsSane ic
    → length input < 2 ^ 64
    → Ends (windows_utf16_to_utf8 ic input h)
unfolding windows_utf16_to_utf8
windows_utf16_to_utf8-Ends ic h input sane small = opened ic.opens
  where
    loop : (xs : List ℕ) → length xs < 2 ^ 64 → Ends (convert_loop ic 66 xs (length xs) h)
    loop [] p = convert_empty-Ends ic h 65 sane
    loop (x ∷ xs) p =
        convert_loop-Ends ic h 65 (x ∷ xs) (length (x ∷ xs)) p
          (enough_rounds (length (x ∷ xs)) (omega arith))

    opened :
        (o : Option Errno)
        → Ends (
            (elim o as (λ o'. Read (List ℕ)) [
              | some e ↦ throw e
              | none ↦ convert_loop ic 66 input (length input)
            ])
              h)
    opened (some e) = λ q. ground arith
    opened none = loop input small
