-- ===== src/Records/Hash.antt =====
-- The hash of a name in an lh record.
use hivex.Base.{ℕ, ◌+◌, ◌*◌, ◌%◌, ◌^◌, ◌<◌, ◌≡◌, refl, arith, true, List, [], ◌∷◌, ap, ◌∙◌}
use hivex.CString.{c_string, to_lower, to_upper, strcaseeq}
use hivex.CString.Laws.{lowered, strcaseeq_iff}
use hivex.Value.{from_le}
use hivex.Records.{char_size, hash_step, hash_loop, le32_bytes, calc_hash}

-- Letters that agree in lower case agree in upper case.
to_upper_same : (x y : ℕ) → to_lower x ≡ to_lower y → to_upper x ≡ to_upper y
unfolding to_lower to_upper
to_upper_same x y e = ground arith

hash_step_same : (h x y : ℕ) → to_lower x ≡ to_lower y → hash_step h x ≡ hash_step h y
unfolding hash_step
hash_step_same h x y e = ap (λ u. (h * 37 % 2 ^ 32 + char_size u) % 2 ^ 32) (to_upper_same x y e)

hash_step_width : (h x : ℕ) → hash_step h x < 2 ^ 32
unfolding hash_step
hash_step_width h x = omega arith

hash_loop_same : (h : ℕ) (a b : List ℕ) → lowered a ≡ lowered b → hash_loop h a ≡ hash_loop h b
unfolding hash_loop lowered
hash_loop_same h [] [] e = refl
hash_loop_same h [] (y ∷ ys) e = absurd (cc)
hash_loop_same h (x ∷ xs) [] e = absurd (cc)
hash_loop_same h (x ∷ xs) (y ∷ ys) e =
    let head : to_lower x ≡ to_lower y = cc in
    let tail : lowered xs ≡ lowered ys = cc in
    hash_loop_same (hash_step h x) xs ys tail ∙ ap (λ k. hash_loop k ys) (hash_step_same h x y head)

hash_loop_width : (h : ℕ) (a : List ℕ) → h < 2 ^ 32 → hash_loop h a < 2 ^ 32
unfolding hash_loop
hash_loop_width h [] p = p
hash_loop_width h (x ∷ xs) p = hash_loop_width (hash_step h x) xs (hash_step_width h x)

from_le-le32_bytes : (v : ℕ) → v < 2 ^ 32 → from_le (le32_bytes v) ≡ v
unfolding from_le le32_bytes
from_le-le32_bytes v p = omega arith

-- Two names that are equal for `strcasecmp` have the same hash in an lh record; and the four
-- bytes of a hash, read as a little-endian number, give back the number that was computed.
pub calc_hash-strcaseeq :
    (a b : List ℕ)
    → strcaseeq a b ≡ true
    → (calc_hash b'l' b'h' (c_string a) ≡ calc_hash b'l' b'h' (c_string b))
      × (from_le (calc_hash b'l' b'h' (c_string a)) ≡ hash_loop 0 (c_string a))
unfolding calc_hash
calc_hash-strcaseeq a b e = (
  ap le32_bytes (hash_loop_same 0 (c_string a) (c_string b) ((strcaseeq_iff a b).0 e)),
  from_le-le32_bytes _ (hash_loop_width 0 (c_string a) (omega arith)),
)
