-- ===== src/SetValues/ReadBack.antt =====
-- The key, the type and the data of a value are read back as they were stored.
use hivex.Base.{ℕ, zero, suc, ◌+◌, ◌^◌, ◌≤◌, ◌≡◌, refl, sym, ap, ◌∙◌, arith, Bool, true, length}
use hivex.Hive.{Hive, ok, efault, enotsup, erange}
use hivex.Hive.Bytes.{Image, get16, get32, get_bytes}
use hivex.Hive.Frame.{SameFrom, get16_same, get32_same}
use hivex.Hive.Reader
use hivex.Hive.Reader.Laws as Read
use hivex.Hive.Memory.{load8, load_bytes}
use hivex.Hive.Memory.Laws.{load16_ok, load32_ok, load_bytes_ok}
use hivex.Layout.Vk
use hivex.Block.{is_valid_block, block_id_eq, block_len}
use hivex.Block.Laws.{IsBlock, seg_of, block_len_ok, block_len-eq-ok, check_vk_ok}
use hivex.Value.{inline_len, is_inline, value_key_len, value_key, value_value}
use hivex.SetValues.{SetValue}

-- What the library reads from the record.
pub record ReadsBack (h : Hive) (vk : ℕ) (v : SetValue) : Type 0 where
  pub key : value_key vk h ≡ ok v.key
  pub content : value_value vk h ≡ ok (record { type = v.t; bytes = v.value })

-- The record of a value at `vk`, with its data inside.
pub record IsRecord (h : Hive) (vk : ℕ) (v : SetValue) : Type 0 where
  pub granted : (n : ℕ) → h.grants n ≡ true
  pub block : IsBlock h vk b'v' b'k'
  pub seg_len : ℕ
  pub used : Bool
  pub len_is : block_len vk h ≡ ok (seg_len, used)
  pub room : Vk.sizeof + length v.key ≤ seg_len
  pub inside : vk + Vk.sizeof + length v.key ≤ h.size
  pub value_short : length v.value ≤ 4
  pub name_len : get16 h.mem (vk + Vk.name_len) ≡ length v.key
  pub data_type : get32 h.mem (vk + Vk.data_type) ≡ v.t
  pub data_len : get32 h.mem (vk + Vk.data_len) ≡ length v.value + 2 ^ 31
  pub name : get_bytes h.mem (vk + Vk.name) (length v.key) ≡ v.key
  pub bytes : get_bytes h.mem (vk + Vk.data_offset) (length v.value) ≡ v.value

-- The identifier of a block does not depend on other bytes.
block_id_eq-image :
    (h : Hive) (m : Image) (off a b : ℕ)
    → m (off + 4) ≡ h.mem (off + 4)
    → m (off + 4 + 1) ≡ h.mem (off + 4 + 1)
    → block_id_eq off a b h ≡ ok true
    → block_id_eq off a b (record h { mem = m }) ≡ ok true
unfolding block_id_eq load8 Reader.◌>>=◌
block_id_eq-image h m off a b p q e = ground (arith, p, q, e)

get_bytes_same : (m m' : Image) (o n : ℕ) → SameFrom m m' o n → get_bytes m' o n ≡ get_bytes m o n
unfolding get_bytes
get_bytes_same m m' o zero same = refl
get_bytes_same m m' o (suc n) same =
    rw
      (
        same o (omega arith) (omega arith),
        get_bytes_same m m' (o + 1) n λ i p q. same i (omega arith) (omega arith),
      )
      refl

module _ (h : Hive) (m : Image) (vk : ℕ) where
  abbrev with_mem : Hive
  with_mem = record h { mem = m }

  valid_same : is_valid_block with_mem vk ≡ is_valid_block h vk
  unfolding is_valid_block
  valid_same = refl

  pub image-IsBlock : SameFrom h.mem m vk 6 → IsBlock h vk b'v' b'k' → IsBlock with_mem vk b'v' b'k'
  image-IsBlock same block = record {
    valid = valid_same ∙ block.valid;
    id =
        block_id_eq-image h m vk b'v' b'k' (same (vk + 4) (omega arith) (omega arith))
          (same (vk + 4 + 1) (omega arith) (omega arith)) block.id;
  }

  pub block_len-image :
      {r : ℕ × Bool} → SameFrom h.mem m vk 4 → block_len vk h ≡ ok r → block_len vk with_mem ≡ ok r
  block_len-image same len_is =
      let old = block_len-eq-ok vk h len_is in
      let word = get32_same h.mem m vk same in
      block_len_ok vk with_mem old.0 ∙ ap (λ w. ok (seg_of w)) word ∙ ap ok (sym old.1)

  -- Only the bytes of the record count.
  pub image-IsRecord :
      (v : SetValue)
      → SameFrom h.mem m vk (Vk.name + length v.key)
      → IsRecord h vk v
      → IsRecord with_mem vk v
  image-IsRecord v same r =
      let part : (o n : ℕ) → vk ≤ o → o + n ≤ vk + (24 + length v.key) → SameFrom h.mem m o n =
        λ o n p q i low high. same i (omega arith) (omega arith) in
      record {
        granted = r.granted;
        block = image-IsBlock (part vk 6 (omega arith) (omega arith)) r.block;
        seg_len = r.seg_len;
        used = r.used;
        len_is = block_len-image (part vk 4 (omega arith) (omega arith)) r.len_is;
        room = r.room;
        inside = r.inside;
        value_short = r.value_short;
        name_len =
            get16_same h.mem m (vk + 6) (part (vk + 6) 2 (omega arith) (omega arith)) ∙ r.name_len;
        data_type =
            get32_same h.mem m (vk + 16) (part (vk + 16) 4 (omega arith) (omega arith))
            ∙ r.data_type;
        data_len =
            get32_same h.mem m (vk + 8) (part (vk + 8) 4 (omega arith) (omega arith)) ∙ r.data_len;
        name =
            get_bytes_same h.mem m (vk + 24) (length v.key)
              (part (vk + 24) (length v.key) (omega arith) (omega arith))
            ∙ r.name;
        bytes =
            get_bytes_same h.mem m (vk + 12) (length v.value)
              (part (vk + 12) (length v.value) (omega arith) (omega (arith, r.value_short)))
            ∙ r.bytes;
      }

module _ (h : Hive) (vk : ℕ) (v : SetValue) (r : IsRecord h vk v) where
  reads_value : load_bytes (vk + Vk.data_offset) (length v.value) h ≡ ok v.value
  reads_value =
      load_bytes_ok (vk + 12) h (length v.value) (omega (arith, r.inside, r.value_short))
      ∙ ap ok r.bytes

  reads_name : load_bytes (vk + Vk.name) (length v.key) h ≡ ok v.key
  reads_name = load_bytes_ok (vk + 24) h (length v.key) (omega (arith, r.inside)) ∙ ap ok r.name

  reads-key_len : value_key_len vk h ≡ ok (length v.key)
  unfolding value_key_len
  reads-key_len = Read.step h _ _ (check_vk_ok h vk r.block) (
      Read.step h _ _ (load16_ok (vk + 6) h (omega (arith, r.inside)) ∙ ap ok r.name_len)
        (Read.step h _ _ r.len_is (Read.step_require h _ efault _ (ground (arith, r.room)) refl)))

  may_malloc : (n : ℕ) → Reader.malloc n h ≡ ok tt
  unfolding Reader.require
  may_malloc n = rw (r.granted n) refl

  reads-key : value_key vk h ≡ ok v.key
  unfolding value_key
  reads-key =
      Read.step h _ _ (check_vk_ok h vk r.block)
        (Read.step h _ _ reads-key_len (Read.step h _ _ (may_malloc _) reads_name))

  reads-content : value_value vk h ≡ ok (record { type = v.t; bytes = v.value })
  unfolding value_value
  reads-content =
      let short = r.value_short in
      let plain : inline_len (length v.value + 2 ^ 31) ≡ length v.value =
        unfold inline_len in omega (arith, short) in
      let in_record : is_inline (length v.value + 2 ^ 31) ≡ true =
        unfold is_inline in ground arith in
      Read.step h _ _ (check_vk_ok h vk r.block) (
        Read.step h _ _ (load32_ok (vk + 16) h (omega (arith, r.inside)) ∙ ap ok r.data_type) (
          Read.step h _ _ (load32_ok (vk + 8) h (omega (arith, r.inside)) ∙ ap ok r.data_len) (
            rw (plain, in_record)
              (Read.step_require h _ enotsup _ (ground arith) (
                Read.step_require h _ erange _ (ground arith)
                  (Read.step h _ _ (may_malloc _) (Read.step h _ _ reads_value refl)))))))

  pub record-ReadsBack : ReadsBack h vk v
  record-ReadsBack = record { key = reads-key; content = reads-content }
