-- ===== src/Hive/Memory/Range.antt =====
-- The bytes that a load of a range returns.
use hivex.Base.{
  ℕ, zero, suc, ◌+◌, ◌≤◌, ◌≡◌, refl, arith, List, leb, length, ap, sym, ◌∙◌, Bool-cases, inl, inr,
  leb→le,
}
use hivex.Hive.{Hive, ok}
use hivex.Hive.Reader.Laws.{ok-injective}
use hivex.Hive.Bytes.{Image, get_bytes}
use hivex.Hive.Memory.{load_bytes}

pub length-get_bytes : (m : Image) (o n : ℕ) → length (get_bytes m o n) ≡ n
unfolding get_bytes
length-get_bytes m o zero = refl
length-get_bytes m o (suc n) = omega (arith, length-get_bytes m (o + 1) n)

-- `bytes` is a range of the image inside the file.
pub record IsRange (h : Hive) (o : ℕ) (bytes : List ℕ) : Type 0 where
  pub inside : o + length bytes ≤ h.size
  pub same : bytes ≡ get_bytes h.mem o (length bytes)

module _ (h : Hive) where
  pub load_bytes-IsRange :
      (o n : ℕ) {bytes : List ℕ}
      → load_bytes o n h ≡ ok bytes
      → IsRange h o bytes × (length bytes ≡ n)
  unfolding load_bytes
  load_bytes-IsRange o n {bytes} e = elim (Bool-cases (leb (o + n) h.size)) [
    | inl p ↦
        let same : get_bytes h.mem o n ≡ bytes = ok-injective (rw p at e) in
        let count : length bytes ≡ n = ap length (sym same) ∙ length-get_bytes h.mem o n in
        (record { inside = omega (arith, leb→le _ _ p, count); same = rw count (sym same) }, count)
    | inr p ↦ absurd (cc)
  ]
