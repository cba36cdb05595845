-- ===== src/SetValues/Filled.antt =====
-- The stores of `hivex_node_set_values` fill the record of a value.
use hivex.Base.{
  ℕ, ◌+◌, ◌%◌, ◌^◌, ◌≤◌, ◌<◌, ◌≡◌, ◌∙◌, arith, Bool, true, [], ◌∷◌, ◌++◌, leb, length,
  length-append,
}
use hivex.Hive.{Hive, done, ok}
use hivex.Hive.Bytes.{Image}
use hivex.Hive.Memory.{store16, store32, store_bytes}
use hivex.Hive.Writer.Laws.{step, write_done}
use hivex.Layout.Vk
use hivex.Block.{block_len}
use hivex.Block.Laws.{IsBlock}
use hivex.SetValues.{SetValue, store_vk, store_data}
use hivex.SetValues.Stored.{
  data_field, m1, m2, m3, m4, m5, stored, before_all, stored-name_len, stored-data_type,
  stored-data_len, stored-name, stored-value,
}
use hivex.SetValues.ReadBack.{IsRecord, image-IsBlock, block_len-image}

-- A block for the record of a value whose key and type fit, with at most four bytes of data.
pub record Holder (h : Hive) (vk : ℕ) (v : SetValue) : Type 0 where
  pub writable : h.writable ≡ true
  pub granted : (n : ℕ) → h.grants n ≡ true
  pub block : IsBlock h vk b'v' b'k'
  pub seg_len : ℕ
  pub used : Bool
  pub len_is : block_len vk h ≡ ok (seg_len, used)
  pub room : Vk.sizeof + length v.key ≤ seg_len
  pub inside : vk + Vk.sizeof + length v.key ≤ h.size
  pub key_short : length v.key < 2 ^ 16
  pub type_fits : v.t < 2 ^ 32
  pub value_short : length v.value ≤ 4

module _ (h : Hive) (vk : ℕ) (v : SetValue) (ok_h : Holder h vk v) where
  abbrev pub after_stores : Hive
  after_stores = record h { mem = stored h.mem vk v }

  pub store_vk_done : store_vk vk v h ≡ done tt (record h { mem = m5 h.mem vk v })
  unfolding store_vk store16 store32 store_bytes
  store_vk_done = step h _ _ (write_done h (vk + 6) 2 _ w (omega (arith, ok_h.inside))) (
      step (at m1) _ _
        (write_done (at m1) (vk + 24) (length (v.key ++ (0 ∷ []))) _ w
          (omega (arith, ok_h.inside, length-append v.key (0 ∷ []))))
        (step (at m2) _ _ (write_done (at m2) (vk + 16) 4 _ w (omega (arith, ok_h.inside))) (
          step (at m3) _ _ (write_done (at m3) (vk + 8) 4 _ w (omega (arith, ok_h.inside)))
            (write_done (at m4) (vk + 20) 2 _ w (omega (arith, ok_h.inside))))))
    where
      w : h.writable ≡ true
      w = ok_h.writable

      at : (Image → ℕ → SetValue → Image) → Hive
      at f = record h { mem = f h.mem vk v }

  pub store_data_done :
      store_data vk v.value (record h { mem = m5 h.mem vk v }) ≡ done tt after_stores
  unfolding store_data store_bytes
  store_data_done =
      let short : leb (length v.value) 4 ≡ true = ground (arith, ok_h.value_short) in
      rw short (
        write_done (record h { mem = m5 h.mem vk v }) (vk + 12) (length v.value) _ ok_h.writable
          (omega (arith, ok_h.inside, ok_h.value_short)))

  data_field-inline : data_field v % 2 ^ 32 ≡ length v.value + 2 ^ 31
  data_field-inline = ground (arith, ok_h.value_short)

  pub stores-IsRecord : IsRecord after_stores vk v
  stores-IsRecord =
      let short = ok_h.value_short in
      let m = stored h.mem vk v in
      record {
        granted = ok_h.granted;
        block = image-IsBlock h m vk (λ i p q. before_all h.mem vk v short i q) ok_h.block;
        seg_len = ok_h.seg_len;
        used = ok_h.used;
        len_is =
            block_len-image h m vk (λ i p q. before_all h.mem vk v short i (omega arith))
              ok_h.len_is;
        room = ok_h.room;
        inside = ok_h.inside;
        value_short = short;
        name_len = stored-name_len h.mem vk v short ∙ omega (arith, ok_h.key_short);
        data_type = stored-data_type h.mem vk v short ∙ omega (arith, ok_h.type_fits);
        data_len = stored-data_len h.mem vk v short ∙ data_field-inline;
        name = stored-name h.mem vk v short;
        bytes = stored-value h.mem vk v short;
      }
