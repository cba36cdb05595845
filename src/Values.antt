-- ===== src/Values.antt =====
-- `get_values` of lib/hivex.c and the operations that it serves.
pub mod Lookup
pub mod Sound
use hivex.Base.{ℕ, zero, suc, ◌+◌, ◌*◌, List, [], ◌∷◌, leb, ◌==◌, if◌then◌else◌}
use hivex.Hive.{erange, efault, Read}
use hivex.Hive.Reader.{◌>>=◌, ◌>>◌, pure, require}
use hivex.Hive.Memory.{load32}
use hivex.Layout.{hivex_max_values}
use hivex.Layout.Nk
use hivex.Layout.ValueList
use hivex.Block.{block_len, check_nk, check_valid}
use hivex.OffsetList.{
  OffsetList, init_offset_list, grow_offset_list, add_to_offset_list, return_offset_list,
}
use hivex.CString.{strcaseeq}
use hivex.Value.{value_key}

-- `n` pointers from the one at `o` on.
unfoldable pub read_values : ℕ → ℕ → OffsetList → Read OffsetList
read_values zero o values = pure values
read_values (suc n) o values = do
  pointer ← load32 o
  let value = pointer + 0x1000
  check_valid value efault
  values' ← add_to_offset_list values value
  read_values n (o + 4) values'

-- The values and the block of the value list, for a number of values that is not 0.
unfoldable pub value_lists : ℕ → ℕ → Read (OffsetList × OffsetList)
value_lists node nr_values = do
  values ← grow_offset_list init_offset_list nr_values
  pointer ← load32 (node + Nk.vallist)
  let vlist_offset = pointer + 0x1000
  check_valid vlist_offset efault
  blocks ← add_to_offset_list init_offset_list vlist_offset
  (len, used) ← block_len vlist_offset
  require (leb (4 + nr_values * 4) len) efault
  values' ← read_values nr_values (vlist_offset + ValueList.offset) values
  pure (values', blocks)

-- Both arrays, each with a 0 at its end.
unfoldable pub get_values : ℕ → Read (List ℕ × List ℕ)
get_values node = do
  check_nk node
  nr_values ← load32 (node + Nk.nr_values)
  (values, blocks) ←
      if nr_values == 0
      then pure (init_offset_list, init_offset_list)
      else (do require (leb nr_values hivex_max_values) erange; value_lists node nr_values)
  values' ← return_offset_list values
  blocks' ← return_offset_list blocks
  pure (values', blocks')

unfoldable pub node_values : ℕ → Read (List ℕ)
node_values node = do (values, blocks) ← get_values node; pure values

-- The loop over the array that `node_values` returned; 0 if no key fits.
unfoldable pub find_value : List ℕ → List ℕ → Read ℕ
find_value key [] = pure 0
find_value key (value ∷ rest) =
    if value == 0
    then pure 0
    else (do name ← value_key value; if strcaseeq name key then pure value else find_value key rest)

unfoldable pub node_get_value : ℕ → List ℕ → Read ℕ
node_get_value node key = do values ← node_values node; find_value key values
