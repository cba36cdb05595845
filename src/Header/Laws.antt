-- ===== src/Header/Laws.antt =====
-- The checksum and the magic bytes as facts about the bytes of the image.
use hivex.Base.{ℕ, zero, suc, ◌+◌, ◌*◌, ◌≤◌, ◌≡◌, refl, arith, true, [], ◌∷◌, bit_xor, sym}
use hivex.Hive.{Hive, ok}
use hivex.Hive.Bytes.{Image, get32}
use hivex.Hive.Memory.{load8}
use hivex.Hive.Memory.Laws.{load32_ok, load32-eq-ok}
use hivex.Hive.Reader.{◌>>=◌}
use hivex.Hive.Reader.Laws.{after, ok-injective, step}
use hivex.Header.{checksum_loop, magic_eq}

-- The exclusive or of `n` words from `o` on.
unfoldable pub xor_words : Image → ℕ → ℕ → ℕ → ℕ
xor_words m zero o sum = sum
xor_words m (suc n) o sum = xor_words m n (o + 4) (bit_xor sum (get32 m o))

module _ (h : Hive) where
  pub checksum_loop_ok :
      (n o sum : ℕ) → o + 4 * n ≤ h.size → checksum_loop n o sum h ≡ ok (xor_words h.mem n o sum)
  unfolding checksum_loop xor_words
  checksum_loop_ok zero o sum p = refl
  checksum_loop_ok (suc n) o sum p =
      step h _ _ (load32_ok o h (omega arith))
        (checksum_loop_ok n (o + 4) (bit_xor sum (get32 h.mem o)) (omega arith))

  pub checksum_loop-eq-ok :
      (n o sum : ℕ) {v : ℕ} → checksum_loop n o sum h ≡ ok v → v ≡ xor_words h.mem n o sum
  unfolding checksum_loop xor_words
  checksum_loop-eq-ok zero o sum e = sym (ok-injective e)
  checksum_loop-eq-ok (suc n) o sum e = after h _ _ e λ w read e1.
      let (_, word) = load32-eq-ok o h read in
      rw (← word) (checksum_loop-eq-ok n (o + 4) (bit_xor sum w) e1)

-- Four bytes from `o` on.
abbrev pub FourBytes : Image → ℕ → ℕ → ℕ → ℕ → ℕ → Type 0
FourBytes m o a b c d = (m o ≡ a) × (m (o + 1) ≡ b) × (m (o + 2) ≡ c) × (m (o + 3) ≡ d)

pub magic_eq-FourBytes :
    (h : Hive) (o a b c d : ℕ)
    → magic_eq o (a ∷ b ∷ c ∷ d ∷ []) h ≡ ok true
    → FourBytes h.mem o a b c d
unfolding magic_eq load8 ◌>>=◌
magic_eq-FourBytes h o a b c d e = ground arith
