-- ===== src/DeleteChild.antt =====
-- `delete_node` and `hivex_node_delete_child` of lib/hivex.c.
use hivex.Base.{
  ℕ, zero, suc, ◌+◌, ◌-◌, ◌%◌, ◌^◌, Bool, true, false, not, none, some, List, [], ◌∷◌, ◌==◌,
  if◌then◌else◌,
}
use hivex.Hive.{einval, enotsup, erofs, Outcome, done, failed, crash, Cmd}
use hivex.Hive.Writer.{◌>>=◌, ◌>>◌, pure, throw, require, get, asks}
use hivex.Hive.Memory.{load16, load32, store16, store32}
use hivex.Layout.Nk
use hivex.Layout.Lf
use hivex.Block.{check_nk}
use hivex.Node.{hivex_root, node_parent}
use hivex.OffsetList.{until_zero}
use hivex.Children.{is_lf, get_children}
use hivex.Strings.{Iconv}
use hivex.Alloc.{mark_block_unused}
use hivex.AddChild.{mark_all_unused}
use hivex.Records.{move_keys}
use hivex.Delete.{delete_values, delete_sk}
use hivex.Visit.{continue, refuse, die, Callback, Visitor, Step, next, bad, refused, crashed, died}
use hivex.Visit.Node.{visitor_size, visit_node, root_or_zero}

-- What a field of the node refers to, unless it is 0xffffffff, is released by `f`.
unfoldable pub release : ℕ → (ℕ → Cmd (Unit {0})) → Cmd (Unit {0})
release field f = do
  offs ← get (load32 field)
  if offs == 0xffffffff then pure tt else (do f (offs + 0x1000); store32 field 0xffffffff)

-- The children have been deleted already.
unfoldable pub delete_node : ℕ → Cmd (Unit {0})
delete_node node = do
  (children, blocks) ← get (get_children false node)
  mark_all_unused (until_zero blocks)
  delete_values node
  release (node + Nk.sk) delete_sk
  release (node + Nk.classname) mark_block_unused
  mark_block_unused node

-- A command as a callback without data of its own.
unfoldable pub as_callback : Cmd (Unit {0}) → Callback (Unit {0})
as_callback m s h = elim (m h) [
  | done u h' ↦ continue tt h'
  | failed e h' ↦ refuse e tt h'
  | crash t ↦ die t
]

-- The visitor that deletes each node after its children.
abbrev pub deleting : Visitor (Unit {0})
deleting = record {
  node_start = none;
  node_end = some (λ node name. as_callback (delete_node node));
  string_cb = none;
  multiple_strings_cb = none;
  string_invalid_utf16_cb = none;
  dword_cb = none;
  qword_cb = none;
  binary_cb = none;
  none_cb = none;
  other_cb = none;
  any_cb = none;
}

unfoldable pub as_outcome : Step (Unit {0}) (Unit {0}) → Outcome (Unit {0})
as_outcome (next u w) = done tt w.hive
as_outcome (bad e w) = failed e w.hive
as_outcome (refused e w) = failed e w.hive
as_outcome (crashed t) = crash t
as_outcome (died t) = crash t

unfoldable pub delete_tree : Iconv → ℕ → Cmd (Unit {0})
delete_tree ic node h = as_outcome (visit_node ic node deleting visitor_size false tt h)

-- Among the `n` keys from the one at `o` on, the key of the node is overwritten by those after it.
unfoldable pub unlink_key : ℕ → ℕ → ℕ → Cmd Bool
unlink_key node zero o = pure false
unlink_key node (suc n) o = do
  offset ← get (load32 o)
  if (offset + 0x1000) % 2 ^ 32 == node
      then (do move_keys n (o + 8) o; pure true)
      else unlink_key node n (o + 8)

-- The key of the node is taken out of the first lf or lh record that has it.
unfoldable pub unlink_child : ℕ → List ℕ → Cmd (Unit {0})
unlink_child node [] = throw enotsup
unlink_child node (block ∷ blocks) = do
  lf ← get (is_lf block)
  nr_subkeys_in_lf ← if lf then get (load16 (block + Lf.nr_keys)) else pure 0
  found ← unlink_key node nr_subkeys_in_lf (block + Lf.keys)
  if found then store16 (block + Lf.nr_keys) (nr_subkeys_in_lf - 1) else unlink_child node blocks

-- The guards of `hivex_node_delete_child`, which return the parent.
unfoldable pub check_delete : ℕ → Cmd ℕ
check_delete node = do
  writable ← asks (λ h. h.writable)
  require writable erofs
  get (check_nk node)
  root ← asks (λ h. root_or_zero (hivex_root h))
  require (not (node == root)) einval
  get (node_parent node)

unfoldable pub node_delete_child : Iconv → ℕ → Cmd (Unit {0})
node_delete_child ic node = do
  parent ← check_delete node
  delete_tree ic node
  (children, blocks) ← get (get_children false parent)
  unlink_child node (until_zero blocks)
  nr_subkeys_in_nk ← get (load32 (parent + Nk.nr_subkeys))
  store32 (parent + Nk.nr_subkeys) ((nr_subkeys_in_nk + 2 ^ 32 - 1) % 2 ^ 32)
