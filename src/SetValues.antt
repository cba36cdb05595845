-- ===== src/SetValues.antt =====
-- `hivex_node_set_values` and `hivex_node_set_value` of lib/hivex.c.
pub mod Filled
pub mod Raised
pub mod ReadBack
pub mod Replace
pub mod SetOne
pub mod Stored
use hivex.Base.{
  ℕ, zero, suc, ◌+◌, ◌-◌, ◌*◌, ◌%◌, ◌^◌, Option, none, some, List, [], ◌∷◌, ◌++◌, leb, ltb, ◌==◌,
  if◌then◌else◌, length,
}
use hivex.Hive.{erofs, Read, Cmd}
use hivex.Hive.Reader
use hivex.Hive.Writer.{◌>>=◌, ◌>>◌, pure, require, get, malloc, asks}
use hivex.Hive.Memory.{less_header, load32, store16, store32, store_bytes}
use hivex.Layout.Nk
use hivex.Layout.Vk
use hivex.Layout.ValueList
use hivex.Block.{check_nk}
use hivex.CString.{c_string, strcaseeq}
use hivex.OffsetList.{until_zero}
use hivex.Values.{node_values}
use hivex.Value.{value_value, value_key}
use hivex.Alloc.{allocate_block}
use hivex.Delete.{delete_values}

-- `struct hive_set_value`; `len` is the length of `value`.
pub record SetValue : Type 0 where
  pub key : List ℕ
  pub t : ℕ
  pub value : List ℕ

-- The fields of the new vk record, but for the data.
unfoldable pub store_vk : ℕ → SetValue → Cmd (Unit {0})
store_vk vk_offs v = do
  store16 (vk_offs + Vk.name_len) (length v.key)
  store_bytes (vk_offs + Vk.name) (v.key ++ (0 ∷ []))
  store32 (vk_offs + Vk.data_type) v.t
  let len = length v.value % 2 ^ 32
  store32 (vk_offs + Vk.data_len) (if leb len 4 then len + 2 ^ 31 else len)
  store16 (vk_offs + Vk.flags) (if length v.key == 0 then 0 else 1)

-- At most four bytes are stored in the record itself.
unfoldable pub store_data : ℕ → List ℕ → Cmd (Unit {0})
store_data vk_offs value =
    if leb (length value) 4 then store_bytes (vk_offs + Vk.data_offset) value else (do
      offs ← allocate_block (length value + 4) 0 0
      store_bytes (offs + 4) value
      store32 (vk_offs + Vk.data_offset) (less_header offs))

-- `field = max (field, n)` of a `uint32_t` field.
unfoldable pub raise_to : ℕ → ℕ → Cmd (Unit {0})
raise_to field n = do old ← get (load32 field); if ltb old n then store32 field n else pure tt

-- One round of the loop: the record of the value whose pointer stands at `slot`.
unfoldable pub set_one : ℕ → ℕ → SetValue → Cmd (Unit {0})
set_one node slot v = do
  vk_offs ← allocate_block (Vk.sizeof + length v.key) b'v' b'k'
  store32 slot (less_header vk_offs)
  store_vk vk_offs v
  store_data vk_offs v.value
  raise_to (node + Nk.max_vk_name_len) (length v.key * 2)
  raise_to (node + Nk.max_vk_data_len) (length v.value)

unfoldable pub set_each : ℕ → ℕ → List SetValue → Cmd (Unit {0})
set_each node slot [] = pure tt
set_each node slot (v ∷ vs) = do set_one node slot v; set_each node (slot + 4) vs

-- The value list, and the records of the values.
unfoldable pub write_values : ℕ → List SetValue → Cmd (Unit {0})
write_values node values = do
  vallist_offs ← allocate_block (ValueList.sizeof + (length values - 1) * 4) 0 0
  store32 (node + Nk.nr_values) (length values)
  store32 (node + Nk.vallist) (less_header vallist_offs)
  set_each node (vallist_offs + ValueList.offset) values

unfoldable pub node_set_values : ℕ → List SetValue → Cmd (Unit {0})
node_set_values node values = do
  writable ← asks (λ h. h.writable)
  require writable erofs
  get (check_nk node)
  delete_values node
  if length values == 0 then pure tt else write_values node values

-- The values at these offsets, as they have to be set again.
unfoldable pub reread : List ℕ → Read (List SetValue)
reread [] = Reader.pure []
reread (o ∷ os) = Reader.◌>>=◌ (value_value o) λ v. Reader.◌>>=◌ (value_key o) λ key.
    Reader.◌>>=◌ (reread os)
      λ rest. Reader.pure (record { key = c_string key; t = v.type; value = v.bytes } ∷ rest)

-- The index of the last value whose key fits, if any; `i` is the index of the first one left.
unfoldable pub last_match : List ℕ → ℕ → List SetValue → Option ℕ → Option ℕ
last_match key i [] found = found
last_match key i (v ∷ vs) found =
    last_match key (i + 1) vs (if strcaseeq v.key key then some i else found)

unfoldable pub replace_at : ℕ → SetValue → List SetValue → List SetValue
replace_at i v [] = []
replace_at zero v (w ∷ ws) = v ∷ ws
replace_at (suc i) v (w ∷ ws) = w ∷ replace_at i v ws

-- The values with `v` in the place of the last one of its key, or at the end.
unfoldable pub merge_value : SetValue → List SetValue → List SetValue
merge_value v values = elim (last_match v.key 0 values none) [
  | some i ↦ replace_at i v values
  | none ↦ values ++ (v ∷ [])
]

-- `sizeof (hive_set_value)` is 32.
unfoldable pub node_set_value : ℕ → SetValue → Cmd (Unit {0})
node_set_value node v = do
  prev_values ← get (node_values node)
  malloc ((length (until_zero prev_values) + 1) * 32)
  values ← get (reread (until_zero prev_values))
  malloc (length v.key + 1)
  malloc (length v.value)
  node_set_values node (merge_value v values)
