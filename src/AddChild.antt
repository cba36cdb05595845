-- ===== src/AddChild.antt =====
-- `hivex_node_add_child` of lib/hivex.c.
pub mod Guards
pub mod Position
use Prim.Native.Nat.{Ordering}
use hivex.Base.{
  ℕ, zero, suc, ◌+◌, ◌*◌, ◌%◌, ◌^◌, Bool, true, false, not, Option, none, some, List, [], ◌∷◌, ◌++◌,
  ltb, ◌==◌, if◌then◌else◌, length,
}
use hivex.Hive.{einval, enotsup, efault, erofs, eexist, Result, ok, err, trap, Read, Cmd}
use hivex.Hive.Reader
use hivex.Hive.Writer.{◌>>=◌, ◌>>◌, pure, throw, require, assert, get, asks}
use hivex.Hive.Memory.{less_header, load16, load32, load64, store16, store32, store64, store_bytes}
use hivex.Layout.Nk
use hivex.Layout.Lf
use hivex.Layout.Ri
use hivex.Layout.Sk
use hivex.Block.{is_valid_block, is_block, block_id_eq, check_nk}
use hivex.CString.{strcasecmp}
use hivex.Node.{node_name}
use hivex.OffsetList.{until_zero}
use hivex.Children.{is_lf, get_children, node_get_child}
use hivex.Alloc.{allocate_block, mark_block_unused}
use hivex.Records.{new_lh_record, insert_lf_record}

-- An error of `hivex_node_name` is printed and counts as equality.
unfoldable pub name_order : List ℕ → Result (List ℕ) → Result Ordering
name_order name (ok nname) = ok (strcasecmp name nname)
name_order name (err e) = ok Ordering.eq
name_order name (trap t) = trap t

unfoldable pub compare_name_with_nk_name : List ℕ → ℕ → Read Ordering
compare_name_with_nk_name name nk_offs h =
    (Reader.◌>>◌ (Reader.assert (is_valid_block h nk_offs)) (
        Reader.◌>>=◌ (block_id_eq nk_offs b'n' b'k')
          λ nk. Reader.◌>>◌ (Reader.assert nk) λ h. name_order name (node_name nk_offs h)))
      h

-- `hivex_node_get_child (h, parent, name) != 0`; its errors count as "no".
unfoldable pub child_exists : Result ℕ → Result Bool
child_exists (ok child) = ok (not (child == 0))
child_exists (err e) = ok false
child_exists (trap t) = trap t

-- The new record, without its security record and its timestamp.
unfoldable pub new_nk_record : ℕ → List ℕ → Cmd ℕ
new_nk_record parent name = do
  node ← allocate_block (Nk.sizeof + length name) b'n' b'k'
  store16 (node + Nk.flags) 0x20
  store32 (node + Nk.parent) (less_header parent)
  store32 (node + Nk.subkey_lf) 0xffffffff
  store32 (node + Nk.subkey_lf_volatile) 0xffffffff
  store32 (node + Nk.vallist) 0xffffffff
  store32 (node + Nk.classname) 0xffffffff
  store16 (node + Nk.name_len) (length name)
  store_bytes (node + Nk.name) (name ++ (0 ∷ []))
  pure node

-- The security record and the timestamp of the parent.
unfoldable pub inherit : ℕ → ℕ → Cmd (Unit {0})
inherit parent node = do
  sk ← get (load32 (parent + Nk.sk))
  let parent_sk_offset = sk + 0x1000
  is_sk ← get (is_block parent_sk_offset b's' b'k')
  require is_sk efault
  refcount ← get (load32 (parent_sk_offset + Sk.refcount))
  store32 (parent_sk_offset + Sk.refcount) ((refcount + 1) % 2 ^ 32)
  store32 (node + Nk.sk) (less_header parent_sk_offset)
  timestamp ← get (load64 (parent + Nk.timestamp))
  store64 (node + Nk.timestamp) timestamp

-- The position of the first of the `n` keys left, from the `j`-th at `o`, whose name follows `name`.
unfoldable pub find_key : List ℕ → ℕ → ℕ → ℕ → Read (Option ℕ)
find_key name zero j o h = ok none
find_key name (suc n) j o h =
    (Reader.◌>>=◌ (load32 o) λ offset.
        Reader.◌>>=◌ (compare_name_with_nk_name name (offset + 0x1000)) λ order. elim order [
          | Ordering.lt ↦ Reader.pure (some j)
          | _ ↦ find_key name n (j + 1) (o + 8)
        ])
      h

-- The lf record and the position in it to insert at; `old_offs` is the last lf record seen, or 0.
unfoldable pub find_posn : List ℕ → List ℕ → ℕ → Cmd (ℕ × ℕ)
find_posn name [] old_offs = do
  assert (not (old_offs == 0))
  nr_keys ← get (load16 (old_offs + Lf.nr_keys))
  pure (old_offs, nr_keys)
find_posn name (block ∷ blocks) old_offs = do
  lf ← get (is_lf block)
  if lf
      then (do
        nr_keys ← get (load16 (block + Lf.nr_keys))
        found ← get (find_key name nr_keys 0 (block + Lf.keys))
        elim found [ some j ↦ pure (block, j) | none ↦ find_posn name blocks block ])
      else find_posn name blocks old_offs

-- Among the `n` pointers from `o` on, the place of the one to `old_offs`. (The sum is a `uint32_t`.)
unfoldable pub find_pointer : ℕ → ℕ → ℕ → Read (Option ℕ)
find_pointer old_offs zero o h = ok none
find_pointer old_offs (suc n) o h =
    (Reader.◌>>=◌ (load32 o) λ offset.
        if (offset + 0x1000) % 2 ^ 32 == old_offs
        then Reader.pure (some o)
        else find_pointer old_offs n (o + 4))
      h

-- The pointer to the old record in an ri record among the blocks is set to the new one.
unfoldable pub update_ri : List ℕ → ℕ → ℕ → Cmd (Unit {0})
update_ri [] old_offs new_offs = throw enotsup
update_ri (block ∷ blocks) old_offs new_offs = do
  ri ← get (block_id_eq block b'r' b'i')
  nr_offsets ← if ri then get (load16 (block + Ri.nr_offsets)) else pure 0
  found ← get (find_pointer old_offs nr_offsets (block + Ri.offset))
  elim found [
    | some o ↦ store32 o (less_header new_offs)
    | none ↦ update_ri blocks old_offs new_offs
  ]

unfoldable pub mark_all_unused : List ℕ → Cmd (Unit {0})
mark_all_unused [] = pure tt
mark_all_unused (block ∷ blocks) = do mark_block_unused block; mark_all_unused blocks

-- The parent has no subkeys.
unfoldable pub link_first : ℕ → List ℕ → ℕ → List ℕ → Cmd (Unit {0})
link_first parent name node blocks = do
  mark_all_unused blocks
  lh_offs ← new_lh_record name node
  store32 (parent + Nk.subkey_lf) (less_header lh_offs)

-- The parent has subkeys.
unfoldable pub link_sorted : ℕ → List ℕ → ℕ → List ℕ → Cmd (Unit {0})
link_sorted parent name node blocks = do
  (old_offs, j) ← find_posn name blocks 0
  new_offs ← insert_lf_record old_offs j name node
  subkey_lf ← get (load32 (parent + Nk.subkey_lf))
  if (subkey_lf + 0x1000) % 2 ^ 32 == old_offs
      then store32 (parent + Nk.subkey_lf) (less_header new_offs)
      else update_ri blocks old_offs new_offs

-- The counts in the parent.
unfoldable pub count_child : ℕ → List ℕ → ℕ → Cmd (Unit {0})
count_child parent name nr_subkeys = do
  store32 (parent + Nk.nr_subkeys) (nr_subkeys + 1)
  max ← get (load16 (parent + Nk.max_subkey_name_len))
  if ltb max (length name * 2)
      then store16 (parent + Nk.max_subkey_name_len) (length name * 2)
      else pure tt

-- The guards of `hivex_node_add_child`; `none` is a null pointer.
unfoldable pub check_add : ℕ → Option (List ℕ) → Cmd (List ℕ)
check_add parent none = do
  writable ← asks (λ h. h.writable)
  require writable erofs
  get (check_nk parent)
  throw einval
check_add parent (some name) = do
  writable ← asks (λ h. h.writable)
  require writable erofs
  get (check_nk parent)
  require (not (length name == 0)) einval
  exists ← get (λ h. child_exists (node_get_child parent name h))
  require (not exists) eexist
  pure name

unfoldable pub node_add_child : ℕ → Option (List ℕ) → Cmd ℕ
node_add_child parent name? = do
  name ← check_add parent name?
  node ← new_nk_record parent name
  inherit parent node
  (children, blocks) ← get (get_children true parent)
  nr_subkeys ← get (load32 (parent + Nk.nr_subkeys))
  if nr_subkeys == 0
      then link_first parent name node (until_zero blocks)
      else link_sorted parent name node (until_zero blocks)
  count_child parent name nr_subkeys
  pure node
