-- ===== src/SetValues/Stored.antt =====
-- What `hivex_node_set_values` stores in the record of a value with at most four bytes of data.
use hivex.Base.{
  ℕ, zero, suc, ◌+◌, ◌-◌, ◌%◌, ◌^◌, ◌≤◌, ◌<◌, ◌≡◌, refl, ap, ◌∙◌, arith, inl, inr, List, [], ◌∷◌,
  ◌++◌, leb, ◌==◌, if◌then◌else◌, length, get_or, length-append,
}
use hivex.Hive.Bytes.{Image, get16, get32, put16, put32, put_bytes, get_bytes}
use hivex.Hive.Frame.{
  get16_same, get32_same, put16_frame, put32_frame, put_bytes_frame, get16-put16, get32-put32,
}
use hivex.Layout.Vk
use hivex.SetValues.{SetValue}

module _ {A : Type 0} where
  get_or-append :
      (xs ys : List A) (i : ℕ) (d : A) → i < length xs → get_or (xs ++ ys) i d ≡ get_or xs i d
  get_or-append [] ys i d p = absurd (omega arith)
  get_or-append (x ∷ xs) ys zero d p = refl
  get_or-append (x ∷ xs) ys (suc i) d p = get_or-append xs ys i d (omega arith)

-- Bytes that stand in an image one after the other.
get_bytes-eq :
    (m : Image) (o : ℕ) (xs : List ℕ)
    → ((i : ℕ) → i < length xs → m (o + i) ≡ get_or xs i 0)
    → get_bytes m o (length xs) ≡ xs
unfolding get_bytes
get_bytes-eq m o [] at = refl
get_bytes-eq m o (x ∷ xs) at =
    let here : o ≡ o + 0 = omega arith in
    let head : m o ≡ x = ap m here ∙ at 0 (omega arith) in
    let tail = get_bytes-eq m (o + 1) xs λ i p.
      let there : o + 1 + i ≡ o + suc i = omega arith in ap m there ∙ at (suc i) (omega arith) in
    rw (head, tail) refl

put_bytes_at :
    (m : Image) (o : ℕ) (xs : List ℕ) (i : ℕ)
    → i < length xs
    → put_bytes m o xs (o + i) ≡ get_or xs i 0
unfolding put_bytes
put_bytes_at m o xs i p = let back : o + i - o ≡ i = omega arith in ground (arith, back)

-- The field `data_len`: of data in the record itself it has its highest bit set.
abbrev pub data_field : SetValue → ℕ
data_field v = let len = length v.value % 2 ^ 32 in if leb len 4 then len + 2 ^ 31 else len

-- The image after the stores, one after the other.
module _ (m0 : Image) (vk : ℕ) (v : SetValue) where
  abbrev pub m1 : Image
  m1 = put16 m0 (vk + Vk.name_len) (length v.key)

  abbrev pub m2 : Image
  m2 = put_bytes m1 (vk + Vk.name) (v.key ++ (0 ∷ []))

  abbrev pub m3 : Image
  m3 = put32 m2 (vk + Vk.data_type) v.t

  abbrev pub m4 : Image
  m4 = put32 m3 (vk + Vk.data_len) (data_field v)

  abbrev pub m5 : Image
  m5 = put16 m4 (vk + Vk.flags) (if length v.key == 0 then 0 else 1)

  abbrev pub stored : Image
  stored = put_bytes m5 (vk + Vk.data_offset) v.value

  module _ (short : length v.value ≤ 4) where
    before_lengths : (i : ℕ) → i < vk + 8 → stored i ≡ m1 i
    before_lengths i p =
        put_bytes_frame m5 (vk + 12) v.value i (inr (omega arith))
        ∙ put16_frame m4 (vk + 20) _ i (inr (omega arith))
        ∙ put32_frame m3 (vk + 8) _ i (inr (omega arith))
        ∙ put32_frame m2 (vk + 16) _ i (inr (omega arith))
        ∙ put_bytes_frame m1 (vk + 24) _ i (inr (omega arith))

    pub before_all : (i : ℕ) → i < vk + 6 → stored i ≡ m0 i
    before_all i p =
        before_lengths i (omega arith) ∙ put16_frame m0 (vk + 6) _ i (inr (omega arith))

    pub stored-name_len : get16 stored (vk + Vk.name_len) ≡ length v.key % 2 ^ 16
    stored-name_len =
        get16_same m1 stored (vk + 6) (λ i p q. before_lengths i (omega arith))
        ∙ get16-put16 m0 (vk + 6) _

    pub stored-data_type : get32 stored (vk + Vk.data_type) ≡ v.t % 2 ^ 32
    stored-data_type =
        get32_same m3 stored (vk + 16) (λ i p q.
          put_bytes_frame m5 (vk + 12) v.value i (inl (omega arith))
          ∙ put16_frame m4 (vk + 20) _ i (inr (omega arith))
          ∙ put32_frame m3 (vk + 8) _ i (inl (omega arith)))
        ∙ get32-put32 m2 (vk + 16) _

    pub stored-data_len : get32 stored (vk + Vk.data_len) ≡ data_field v % 2 ^ 32
    stored-data_len =
        get32_same m4 stored (vk + 8) (λ i p q.
          put_bytes_frame m5 (vk + 12) v.value i (inr (omega arith))
          ∙ put16_frame m4 (vk + 20) _ i (inr (omega arith)))
        ∙ get32-put32 m3 (vk + 8) _

    pub stored-name : get_bytes stored (vk + Vk.name) (length v.key) ≡ v.key
    stored-name = get_bytes-eq stored (vk + 24) v.key λ i p.
        put_bytes_frame m5 (vk + 12) v.value _ (inl (omega arith))
        ∙ put16_frame m4 (vk + 20) _ _ (inl (omega arith))
        ∙ put32_frame m3 (vk + 8) _ _ (inl (omega arith))
        ∙ put32_frame m2 (vk + 16) _ _ (inl (omega arith))
        ∙ put_bytes_at m1 (vk + 24) (v.key ++ (0 ∷ [])) i
            (omega (arith, length-append v.key (0 ∷ [])))
        ∙ get_or-append v.key (0 ∷ []) i 0 p

    pub stored-value : get_bytes stored (vk + Vk.data_offset) (length v.value) ≡ v.value
    stored-value = get_bytes-eq stored (vk + 12) v.value (put_bytes_at m5 (vk + 12) v.value)
