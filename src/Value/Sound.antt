-- ===== src/Value/Sound.antt =====
-- What a successful `hivex_value_value` returns, and the numbers read from it.
use hivex.Base.{
  ℕ, ◌+◌, ◌%◌, ◌^◌, ◌<◌, false, ◌≤◌, ◌≡◌, arith, Bool, true, not, ◌&&◌, List, ltb, if◌then◌else◌,
  length, Bool-cases, inl, inr, leb→le,
}
use hivex.Hive.{Hive, ok}
use hivex.Hive.Reader.Laws.{after, after_require, ok-injective}
use hivex.Hive.Bytes.{get32}
use hivex.Hive.Memory.{load_bytes}
use hivex.Hive.Memory.Range.{IsRange, load_bytes-IsRange}
use hivex.Hive.Memory.Laws.{load32-eq-ok}
use hivex.Layout.{hivex_max_value_len}
use hivex.Layout.Vk
use hivex.Block.{block_len, is_valid_block}
use hivex.Block.Laws.{IsBlock, check_vk-eq-ok, check_valid-eq-ok, block_len_bound}
use hivex.Value.{inline_len, is_inline, sub_header, block_data, Content, value_value}

-- The data of a value whose field `data_len` is `w`. With the highest bit set, the data is in the
-- record itself; otherwise it is in a block of its own.
pub data IsData (h : Hive) (value w : ℕ) (bytes : List ℕ) : Type 0 where
  in_record :
      2 ^ 31 ≤ w
      → length bytes ≤ 4
      → length bytes ≡ w % 2 ^ 31
      → IsRange h (value + Vk.data_offset) bytes
      → IsData h value w bytes
  in_block :
      (o len : ℕ) (used : Bool)
      → w < 2 ^ 31
      → o ≡ get32 h.mem (value + Vk.data_offset) + 0x1000
      → is_valid_block h o ≡ true
      → block_len o h ≡ ok (len, used)
      → length bytes ≤ w
      → (4 ≤ len → 4 + length bytes ≤ len)
      → (4 + w ≤ len → length bytes ≡ w)
      → IsRange h (o + 4) bytes
      → IsData h value w bytes

-- What `hivex_value_value` returns for a value.
pub record IsContent (h : Hive) (value : ℕ) (v : Content) : Type 0 where
  pub value_is : IsBlock h value b'v' b'k'
  pub type_is : v.type ≡ get32 h.mem (value + Vk.data_type)
  pub limit : get32 h.mem (value + Vk.data_len) % 2 ^ 31 ≤ hivex_max_value_len
  pub data_is : IsData h value (get32 h.mem (value + Vk.data_len)) v.bytes

module _ (h : Hive) (value : ℕ) where
  block_data-IsData :
      (w : ℕ) (bytes : List ℕ)
      → is_inline w ≡ false
      → inline_len w ≤ hivex_max_value_len
      → block_data value (inline_len w) h ≡ ok bytes
      → IsData h value w bytes
  unfolding block_data sub_header is_inline inline_len
  block_data-IsData w bytes far small e =
      let below : w < 2 ^ 31 = ground (arith, far) in
      let whole : w % 2 ^ 31 ≡ w = omega (arith, below) in
      after h _ _ e λ pointer read e1. after h _ _ e1 λ _ valid e2.
        after h _ _ e2 λ (len, used) seg e3.
          let (_, word) = load32-eq-ok _ h read in
          let (range, count) = load_bytes-IsRange h (pointer + 0x1000 + 4) _ e3 in
          let bound = block_len_bound (pointer + 0x1000) h seg in
          in_block (pointer + 0x1000) len used below (omega arith) (check_valid-eq-ok h _ _ valid)
            seg (ground (arith, count, whole)) (λ long. ground (arith, count, bound, whole))
            (λ fits. ground (arith, count, bound, whole, small)) range

  inline-IsData :
      (w : ℕ) (bytes : List ℕ)
      → is_inline w ≡ true
      → not (is_inline w && ltb 4 (inline_len w)) ≡ true
      → load_bytes (value + Vk.data_offset) (inline_len w) h ≡ ok bytes
      → IsData h value w bytes
  unfolding is_inline inline_len
  inline-IsData w bytes here short e =
      let (range, count) = load_bytes-IsRange h _ _ e in
      let above : 2 ^ 31 ≤ w = ground (arith, here) in
      let four : w % 2 ^ 31 ≤ 4 = ground (arith, here, short) in
      in_record above (omega (arith, four, count)) count range

-- When `hivex_value_value` succeeds, the value is a valid vk record, the type is the one in the
-- record, and the declared length, the field `data_len` without its highest bit, is 1000000 at most.
-- The data is a range of the image inside the file. If the highest bit of the field is set, it is in
-- the record itself, has the declared length, and 4 bytes at most; otherwise it is in the valid block
-- that the record points to, and no longer than declared. If that block has 4 bytes at least, the
-- data does not reach past it; if it is long enough, the data has the declared length.
pub value_value-IsContent :
    (h : Hive) (value : ℕ) (v : Content) → value_value value h ≡ ok v → IsContent h value v
unfolding value_value inline_len
value_value-IsContent h value v e = after h _ _ e λ _ vk e1. after h _ _ e1 λ t read e2.
    after h _ _ e2 λ w read' e3. after_require h _ _ _ e3 λ short e4.
      after_require h _ _ _ e4 λ few e5. after h _ _ e5 λ _ _ e6. after h _ _ e6 λ bytes loaded e7.
        let (_, type_word) = load32-eq-ok _ h read in
        let (_, len_word) = load32-eq-ok _ h read' in
        let made = ok-injective e7 in
        rw (← made) (record {
          value_is = check_vk-eq-ok h value vk;
          type_is = type_word;
          limit = rw (← len_word) (limit_of w (leb→le _ _ few));
          data_is = rw (← len_word) (data_of w bytes short (leb→le _ _ few) loaded);
        })
  where
    limit_of : (w : ℕ) → inline_len w ≤ hivex_max_value_len → w % 2 ^ 31 ≤ hivex_max_value_len
    limit_of w few = few

    data_of :
        (w : ℕ) (bytes : List ℕ)
        → not (is_inline w && ltb 4 (inline_len w)) ≡ true
        → inline_len w ≤ hivex_max_value_len
        → (if is_inline w
              then load_bytes (value + Vk.data_offset) (inline_len w)
              else block_data value (inline_len w))
            h
          ≡ ok bytes
        → IsData h value w bytes
    data_of w bytes short few p = elim (Bool-cases (is_inline w)) [
      | inl here ↦ inline-IsData h value w bytes here short (rw here at p)
      | inr far ↦ block_data-IsData h value w bytes far few (rw far at p)
    ]
