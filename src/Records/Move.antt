-- ===== src/Records/Move.antt =====
-- The loops of `insert_lf_record` that copy keys.
use hivex.Base.{
  ℕ, zero, suc, ◌+◌, ◌-◌, ◌*◌, ◌≤◌, ◌<◌, ◌≡◌, refl, arith, true, ltb, length, get_or, inl, inr, ◌∙◌,
  ap, Bool-cases, ltb→lt,
}
use hivex.Hive.{Hive}
use hivex.Hive.Writer.Laws.{Returns, returns, mono, next, get_done, write_done}
use hivex.Hive.Bytes.{Image, put_bytes, get_bytes}
use hivex.Hive.Frame.{Apart, put_bytes_frame}
use hivex.Hive.Memory.{store_bytes}
use hivex.Hive.Memory.Laws.{load_bytes_ok}
use hivex.Hive.Memory.Range.{length-get_bytes}
use hivex.Records.{move_keys}

get_or-get_bytes : (m : Image) (o n k : ℕ) → k < n → get_or (get_bytes m o n) k 0 ≡ m (o + k)
unfolding get_bytes
get_or-get_bytes m o zero k lt = absurd (omega arith)
get_or-get_bytes m o (suc n) zero lt = ap m (omega arith)
get_or-get_bytes m o (suc n) (suc k) lt =
    get_or-get_bytes m (o + 1) n k (omega arith) ∙ ap m (omega arith)

-- `n` bytes from `src` have been copied to `dst`, and nothing else has changed.
pub record IsCopied (src dst n : ℕ) (h h' : Hive) : Type 0 where
  pub rest : h' ≡ record h { mem = h'.mem }
  pub copied : (k : ℕ) → k < n → h'.mem (dst + k) ≡ h.mem (src + k)
  pub others : (i : ℕ) → Apart dst n i 1 → h'.mem i ≡ h.mem i

module _ (h : Hive) (src dst : ℕ) where
  abbrev one_moved : Hive
  one_moved = record h { mem = put_bytes h.mem dst (get_bytes h.mem src 8) }

  one_copied : (k : ℕ) → k < 8 → one_moved.mem (dst + k) ≡ h.mem (src + k)
  unfolding put_bytes
  one_copied k lt =
      let inside : dst + k - dst ≡ k = omega arith in
      ground (arith, length-get_bytes h.mem src 8, get_or-get_bytes h.mem src 8 k lt)

  one_others : (i : ℕ) → Apart dst 8 i 1 → one_moved.mem i ≡ h.mem i
  one_others i apart =
      put_bytes_frame h.mem dst (get_bytes h.mem src 8) i
        (omega (arith, length-get_bytes h.mem src 8))

  -- The first key, then the others.
  joined :
      (n : ℕ) (h' : Hive)
      → Apart src (8 * suc n) dst (8 * suc n)
      → IsCopied (src + 8) (dst + 8) (8 * n) one_moved h'
      → IsCopied src dst (8 * suc n) h h'
  joined n h' apart c = record {
    rest = c.rest;
    copied = λ k lt. elim (Bool-cases (ltb k 8)) [
      | inl first ↦
          let low = ltb→lt k 8 first in c.others (dst + k) (omega arith) ∙ one_copied k low
      | inr later ↦
          let high : 8 ≤ k = ground arith in
          let to : dst + k ≡ dst + 8 + (k - 8) = omega arith in
          let from : src + 8 + (k - 8) ≡ src + k = omega arith in
          ap h'.mem to
          ∙ c.copied (k - 8) (omega arith)
          ∙ one_others (src + 8 + (k - 8)) (omega arith)
          ∙ ap h.mem from
    ];
    others = λ i away. c.others i (omega arith) ∙ one_others i (omega arith);
  }

-- On a writable handle, when both ranges lie inside the image and do not overlap, the loop that
-- copies `n` keys of an lf or lh record ends, and the eight bytes of each are copied in their order;
-- no other byte changes, and nothing else of the handle.
pub move_keys-IsCopied :
    (h : Hive) (n src dst : ℕ)
    → h.writable ≡ true
    → src + 8 * n ≤ h.size
    → dst + 8 * n ≤ h.size
    → Apart src (8 * n) dst (8 * n)
    → Returns (λ u h'. IsCopied src dst (8 * n) h h') (move_keys n src dst h)
unfolding move_keys store_bytes
move_keys-IsCopied h zero src dst w from to apart =
    returns (record { rest = refl; copied = λ k lt. absurd (omega arith); others = λ i away. refl })
move_keys-IsCopied h (suc n) src dst w from to apart =
    let room = length-get_bytes h.mem src 8 in
    next h _ _ (get_done h _ (load_bytes_ok src h 8 (omega arith))) (
      next h _ _ (write_done h dst (length (get_bytes h.mem src 8)) _ w (omega (arith, room))) (
        mono
          (move_keys-IsCopied (one_moved h src dst) n (src + 8) (dst + 8) w (omega arith)
            (omega arith) (omega arith))
          λ u h' c. joined h src dst n h' apart c))
