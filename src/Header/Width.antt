-- ===== src/Header/Width.antt =====
-- The checksum is a 32-bit number, and depends on the words below it only.
use Prim.Native.Nat.{bit_xor-bitwise, digits, differ}
use hivex.Base.{ℕ, zero, suc, ◌+◌, ◌*◌, ◌/◌, ◌%◌, ◌^◌, ◌<◌, ◌≡◌, refl, arith, bit_xor}
use hivex.Hive.Bytes.{Image, get32}
use hivex.Hive.Frame.{IsImage, get32-lt, get32_same}
use hivex.Header.Laws.{xor_words}

differ_digit : (x y : ℕ) → x < 2 → y < 2 → differ x y < 2
differ_digit zero y p q = q
differ_digit (suc x) zero p q = p
differ_digit (suc zero) (suc zero) p q = omega arith
differ_digit (suc zero) (suc (suc y)) p q = absurd (omega arith)
differ_digit (suc (suc x)) (suc y) p q = absurd (omega arith)

digits_width : (k n a b : ℕ) → a < 2 ^ k → b < 2 ^ k → digits (λ b. b) differ n a b < 2 ^ k
digits_width k zero a b p q = q
digits_width k (suc n) zero b p q = q
digits_width zero (suc n) (suc a) b p q = absurd (omega arith)
digits_width (suc k) (suc n) (suc a) b p q = omega (
  arith,
  digits_width k n (suc a / 2) (b / 2) (omega arith) (omega arith),
  differ_digit (suc a % 2) (b % 2) (omega arith) (omega arith),
)

bit_xor_width : (k a b : ℕ) → a < 2 ^ k → b < 2 ^ k → bit_xor a b < 2 ^ k
bit_xor_width k a b p q = rw (bit_xor-bitwise a b) (digits_width k a a b p q)

module _ (m : Image) where
  pub xor_words_width : (n o sum : ℕ) → IsImage m → sum < 2 ^ 32 → xor_words m n o sum < 2 ^ 32
  unfolding xor_words
  xor_words_width zero o sum bytes p = p
  xor_words_width (suc n) o sum bytes p =
      xor_words_width n (o + 4) _ bytes (bit_xor_width 32 sum (get32 m o) p (get32-lt m o bytes))

  pub xor_words_same :
      (m' : Image) (n o sum : ℕ)
      → ((i : ℕ) → i < o + 4 * n → m' i ≡ m i)
      → xor_words m' n o sum ≡ xor_words m n o sum
  unfolding xor_words
  xor_words_same m' zero o sum same = refl
  xor_words_same m' (suc n) o sum same =
      rw (get32_same m m' o (λ i _ below. same i (omega arith)))
        (xor_words_same m' n (o + 4) _ (λ i below. same i (omega arith)))
