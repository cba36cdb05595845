-- ===== src/Children.antt =====
-- `get_children` of lib/hivex.c and the operations that it serves.
pub mod Laws
pub mod Lookup
pub mod Sound
use hivex.Base.{ℕ, zero, suc, ◌+◌, ◌*◌, Bool, true, false, List, [], ◌∷◌, leb, ◌==◌, if◌then◌else◌}
use hivex.Hive.{Hive, Errno, enotsup, erange, efault, Read}
use hivex.Hive.Reader.{◌>>=◌, ◌>>◌, pure, throw, require}
use hivex.Hive.Memory.{load16, load32}
use hivex.Layout.{hivex_max_subkeys}
use hivex.Layout.Nk
use hivex.Layout.Lf
use hivex.Layout.Ri
use hivex.Block.{block_len, block_id_eq, check_nk, check_valid}
use hivex.OffsetList.{
  OffsetList, init_offset_list, grow_offset_list, add_to_offset_list, return_offset_list,
  until_zero,
}
use hivex.CString.{strcaseeq}
use hivex.Node.{node_name}

-- The two lists that `get_children` builds.
pub record Lists : Type 0 where
  pub children : OffsetList
  pub blocks : OffsetList

-- `id` is "lf" or "lh".
unfoldable pub is_lf : ℕ → Read Bool
is_lf offs = do
  lf ← block_id_eq offs b'l' b'f'
  if lf then pure true else block_id_eq offs b'l' b'h'

-- `n` keys from the one at `o` on; `check` is the absence of GET_CHILDREN_NO_CHECK_NK.
unfoldable pub read_keys : Bool → ℕ → ℕ → OffsetList → Read OffsetList
read_keys check zero o children = pure children
read_keys check (suc n) o children = do
  offset ← load32 o
  let subkey = offset + 0x1000
  if check then check_valid subkey efault else pure tt
  children' ← add_to_offset_list children subkey
  read_keys check n (o + 8) children'

-- The record that the parent points to is an lf or lh record.
unfoldable pub lf_children : Bool → ℕ → ℕ → Lists → Read Lists
lf_children check nr_subkeys_in_nk lf lists = do
  nr_subkeys_in_lf ← load16 (lf + Lf.nr_keys)
  require (nr_subkeys_in_nk == nr_subkeys_in_lf) enotsup
  (len, used) ← block_len lf
  require (leb (8 + nr_subkeys_in_lf * 8) len) efault
  children ← read_keys check nr_subkeys_in_lf (lf + Lf.keys) lists.children
  pure (record lists { children = children })

-- The offset of an lf or lh record in an ri record, with its checks.
unfoldable pub ri_entry : ℕ → Read ℕ
ri_entry o = do
  pointer ← load32 o
  let offset = pointer + 0x1000
  check_valid offset efault
  lf ← is_lf offset
  require lf enotsup
  pure offset

-- The first loop over the `n` entries left: note the lf records and count their keys.
unfoldable pub count_keys : ℕ → ℕ → OffsetList → ℕ → Read (OffsetList × ℕ)
count_keys zero o blocks count = pure (blocks, count)
count_keys (suc n) o blocks count = do
  offset ← ri_entry o
  blocks' ← add_to_offset_list blocks offset
  nr_keys ← load16 (offset + Lf.nr_keys)
  count_keys n (o + 4) blocks' (count + nr_keys)

-- The second loop: copy the keys.
unfoldable pub copy_keys : Bool → ℕ → ℕ → OffsetList → Read OffsetList
copy_keys check zero o children = pure children
copy_keys check (suc n) o children = do
  offset ← ri_entry o
  nr_keys ← load16 (offset + Lf.nr_keys)
  children' ← read_keys check nr_keys (offset + Lf.keys) children
  copy_keys check n (o + 4) children'

unfoldable pub ri_children : Bool → ℕ → ℕ → Lists → Read Lists
ri_children check nr_subkeys_in_nk ri lists = do
  nr_offsets ← load16 (ri + Ri.nr_offsets)
  (blocks, count) ← count_keys nr_offsets (ri + Ri.offset) lists.blocks 0
  require (nr_subkeys_in_nk == count) enotsup
  children ← copy_keys check nr_offsets (ri + Ri.offset) lists.children
  pure (record { children = children; blocks = blocks })

-- What stands between the tests of the number of subkeys and the label `ok`.
unfoldable pub subkey_lists : Bool → ℕ → ℕ → Read Lists
subkey_lists check node nr_subkeys_in_nk = do
  children ← grow_offset_list init_offset_list nr_subkeys_in_nk
  offset ← load32 (node + Nk.subkey_lf)
  let subkey_lf = offset + 0x1000
  check_valid subkey_lf efault
  blocks ← add_to_offset_list init_offset_list subkey_lf
  lf ← is_lf subkey_lf
  ri ← if lf then pure false else block_id_eq subkey_lf b'r' b'i'
  let lists : Lists = record { children = children; blocks = blocks }
  if lf
      then lf_children check nr_subkeys_in_nk subkey_lf lists
      else if ri
      then ri_children check nr_subkeys_in_nk subkey_lf lists
      else throw enotsup

-- Both arrays, each with a 0 at its end.
unfoldable pub get_children : Bool → ℕ → Read (List ℕ × List ℕ)
get_children check node = do
  check_nk node
  nr_subkeys_in_nk ← load32 (node + Nk.nr_subkeys)
  lists ←
      if nr_subkeys_in_nk == 0
      then pure (record { children = init_offset_list; blocks = init_offset_list })
      else (do
        require (leb nr_subkeys_in_nk hivex_max_subkeys) erange
        subkey_lists check node nr_subkeys_in_nk)
  children ← return_offset_list lists.children
  blocks ← return_offset_list lists.blocks
  pure (children, blocks)

unfoldable pub node_children : ℕ → Read (List ℕ)
node_children node = do (children, blocks) ← get_children true node; pure children

-- The loop over the array that `node_children` returned; 0 if no name fits.
unfoldable pub find_child : List ℕ → List ℕ → Read ℕ
find_child nname [] = pure 0
find_child nname (child ∷ rest) = if child == 0 then pure 0 else (do
  name ← node_name child
  if strcaseeq name nname then pure child else find_child nname rest)

unfoldable pub node_get_child : ℕ → List ℕ → Read ℕ
node_get_child node nname = do children ← node_children node; find_child nname children
