-- ===== src/Strings/Length.antt =====
-- The length of a UTF-16 string.
use hivex.Base.{
  ℕ, zero, suc, ◌+◌, ◌%◌, ◌≤◌, ◌<◌, ◌≡◌, refl, arith, Bool, true, false, ◌&&◌, List, [], ◌∷◌, ◌==◌,
  length, get_or, Bool-cases, inl, inr,
}
use hivex.Strings.{utf16_string_len}

abbrev is_zero_pair : List ℕ → ℕ → Bool
is_zero_pair xs i = (get_or xs i 1 == 0) && (get_or xs (suc i) 1 == 0)

-- `n` is the offset of the first pair of zeros, or the length in whole pairs.
pub record IsLength (xs : List ℕ) (n : ℕ) : Type 0 where
  pub even : n % 2 ≡ 0
  pub inside : n ≤ length xs
  pub before : (i : ℕ) → i % 2 ≡ 0 → i < n → is_zero_pair xs i ≡ false
  pub stop : n + 2 ≤ length xs → is_zero_pair xs n ≡ true

module _ (a b : ℕ) (rest : List ℕ) (n : ℕ) where
  before_pair :
      ((a == 0) && (b == 0)) ≡ false
      → IsLength rest n
      → (i : ℕ) → i % 2 ≡ 0
      → i < 2 + n
      → is_zero_pair (a ∷ b ∷ rest) i ≡ false
  before_pair more r zero e lt = more
  before_pair more r (suc zero) e lt = absurd (omega arith)
  before_pair more r (suc (suc i)) e lt = r.before i (omega arith) (omega arith)

  stop_pair :
      IsLength rest n
      → 2 + n + 2 ≤ length (a ∷ b ∷ rest)
      → is_zero_pair (a ∷ b ∷ rest) (2 + n) ≡ true
  stop_pair r p = let shape : 2 + n ≡ suc (suc n) = omega arith in rw shape (r.stop (omega arith))

-- `utf16_string_len_in_bytes_max` returns an even number that does not exceed the length. Before it
-- there is no pair of zeros at an even offset, and if two more bytes are there, they are both 0.
pub utf16_string_len-IsLength : (xs : List ℕ) → IsLength xs (utf16_string_len xs)
unfolding utf16_string_len
utf16_string_len-IsLength [] = record {
  even = refl;
  inside = omega arith;
  before = λ i e lt. absurd (omega arith);
  stop = λ p. absurd (omega arith);
}
utf16_string_len-IsLength (a ∷ []) = record {
  even = refl;
  inside = omega arith;
  before = λ i e lt. absurd (omega arith);
  stop = λ p. absurd (omega arith);
}
utf16_string_len-IsLength (a ∷ b ∷ rest) =
    let r = utf16_string_len-IsLength rest in
    elim (Bool-cases ((a == 0) && (b == 0))) [
      | inl zeros ↦ rw zeros (record {
        even = refl;
        inside = omega arith;
        before = λ i e lt. absurd (omega arith);
        stop = λ p. zeros;
      })
      | inr more ↦ rw more (record {
        even = omega (arith, r.even);
        inside = omega (arith, r.inside);
        before = before_pair a b rest (utf16_string_len rest) more r;
        stop = stop_pair a b rest (utf16_string_len rest) r;
      })
    ]
