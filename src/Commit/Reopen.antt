-- ===== src/Commit/Reopen.antt =====
-- A file that `hivex_commit` has written passes the checks of the header in `hivex_open`.
use hivex.Base.{
  ℕ, ◌+◌, ◌/◌, ◌≤◌, ◌<◌, ◌≡◌, refl, arith, true, Bool, ◌∙◌, sym, [], ◌∷◌, ◌==◌, ==_iff,
}
use hivex.Hive.{Hive, Errno, ok, enotsup, enomem, einval}
use hivex.Hive.Reader.{◌>>=◌, require}
use hivex.Hive.Reader.Laws.{step, step_require}
use hivex.Hive.Writer.Laws.{Returns, mono}
use hivex.Hive.Bytes.{get32}
use hivex.Hive.Frame.{IsImage, get32_same}
use hivex.Hive.Memory.{load8}
use hivex.Hive.Memory.Laws.{load32_ok}
use hivex.Layout.Header
use hivex.Header.{magic_eq, header_checksum}
use hivex.Header.Laws.{FourBytes, xor_words, checksum_loop_ok}
use hivex.Open.{check_header, fresh_handle}
use hivex.Commit.{hivex_commit}
use hivex.Commit.Sound.{no_errors, hivex_commit-IsCommitted}

require_ok : (h : Hive) (c : Bool) (e : Errno) → c ≡ true → require c e h ≡ ok tt
unfolding require
require_ok h c e p = rw p

magic_eq_ok :
    (h : Hive) (o a b c d : ℕ)
    → o + 4 ≤ h.size
    → FourBytes h.mem o a b c d
    → magic_eq o (a ∷ b ∷ c ∷ d ∷ []) h ≡ ok true
unfolding magic_eq load8 ◌>>=◌
magic_eq_ok h o a b c d p (w, x, y, z) = ground arith

abbrev HasChecksum : Hive → Type 0
HasChecksum h = get32 h.mem Header.csum ≡ xor_words h.mem 127 0 0

check_ok :
    (h : Hive)
    → 0x1000 ≤ h.size
    → h.grants (1 + h.size / 32) ≡ true
    → FourBytes h.mem Header.magic b'r' b'e' b'g' b'f'
    → get32 h.mem Header.major_ver ≡ 1
    → HasChecksum h
    → check_header h ≡ ok tt
unfolding check_header header_checksum
check_ok h whole granted magic version sum =
    step h _ _ (magic_eq_ok h Header.magic b'r' b'e' b'g' b'f' (omega arith) magic) (
      step_require h true enotsup _ refl (
        step h _ _ (load32_ok Header.major_ver h (omega arith)) (
          step_require h (get32 h.mem Header.major_ver == 1) enotsup _ ((==_iff _ 1).1 version) (
            step h _ _ (require_ok h (h.grants (1 + h.size / 32)) enomem granted) (
              step h _ _ (checksum_loop_ok h 127 0 0 (omega arith)) (
                step h _ _ (load32_ok Header.csum h (omega arith))
                  (require_ok h _ einval ((==_iff _ _).1 (sym sum)))))))))

-- If the image of a writable handle holds bytes, starts with "regf", has the major version 1 and
-- a whole header, then `hivex_commit` without errors of the file system writes a file whose
-- header passes all the checks of `hivex_open`, the checksum's too, when the allocator serves
-- its bitmap.
pub hivex_commit-check_header :
    (h : Hive) (grants : ℕ → Bool) (writable : Bool)
    → h.writable ≡ true
    → 0x1000 ≤ h.size
    → IsImage h.mem
    → FourBytes h.mem Header.magic b'r' b'e' b'g' b'f'
    → get32 h.mem Header.major_ver ≡ 1
    → grants (1 + h.size / 32) ≡ true
    → Returns
        (λ f h'. check_header (fresh_handle grants writable f) ≡ ok tt)
        (hivex_commit no_errors 0 h)
unfolding fresh_handle
hivex_commit-check_header h grants writable w large bytes (m0, m1, m2, m3) version granted =
    mono (hivex_commit-IsCommitted h w large bytes) λ f h' (c, _).
      let low : (i : ℕ) → i < 4 → f.bytes i ≡ h.mem i = λ i lt. c.others i (omega arith) in
      check_ok _ (omega (arith, c.size_is)) (rw c.size_is granted)
        (
          low 0 (omega arith) ∙ m0,
          low 1 (omega arith) ∙ m1,
          low 2 (omega arith) ∙ m2,
          low 3 (omega arith) ∙ m3,
        )
        (get32_same h.mem f.bytes Header.major_ver (λ i a b. c.others i (omega arith)) ∙ version)
        c.checksum
