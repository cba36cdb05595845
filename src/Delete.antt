-- ===== src/Delete.antt =====
-- `delete_values` and `delete_sk` of lib/hivex.c.
pub mod Sk
use hivex.Base.{ℕ, ◌+◌, ◌-◌, not, ◌&&◌, List, [], ◌∷◌, ◌==◌, if◌then◌else◌}
use hivex.Hive.{einval, efault, Cmd}
use hivex.Hive.Writer.{◌>>=◌, ◌>>◌, pure, require, assert, get, asks}
use hivex.Hive.Memory.{less_header, load32, store32}
use hivex.Layout.Nk
use hivex.Layout.Vk
use hivex.Layout
use hivex.Block.{is_block}
use hivex.OffsetList.{until_zero}
use hivex.Values.{get_values}
use hivex.Value.{is_inline}
use hivex.Alloc.{mark_block_unused}
use hivex.AddChild.{mark_all_unused}

-- The records of the values, and their data blocks.
unfoldable pub delete_each : List ℕ → Cmd (Unit {0})
delete_each [] = pure tt
delete_each (value ∷ values) = do
  data_len ← get (load32 (value + Vk.data_len))
  if is_inline data_len then pure tt else (do
    pointer ← get (load32 (value + Vk.data_offset))
    mark_block_unused (pointer + 0x1000))
  mark_block_unused value
  delete_each values

unfoldable pub delete_values : ℕ → Cmd (Unit {0})
delete_values node = do
  writable ← asks (λ h. h.writable)
  assert writable
  (values, blocks) ← get (get_values node)
  mark_all_unused (until_zero blocks)
  delete_each (until_zero values)
  store32 (node + Nk.nr_values) 0
  store32 (node + Nk.vallist) 0xffffffff

-- The record leaves the circular list of security records, unless a link leads back to itself.
unfoldable pub unlink_sk : ℕ → Cmd (Unit {0})
unlink_sk sk_offset = do
  prev ← get (load32 (sk_offset + Layout.Sk.sk_prev))
  next ← get (load32 (sk_offset + Layout.Sk.sk_next))
  let sk_prev_offset = prev + 0x1000
  let sk_next_offset = next + 0x1000
  if not (sk_prev_offset == sk_offset) && not (sk_next_offset == sk_offset)
      then (do
        store32 (sk_prev_offset + Layout.Sk.sk_next) (less_header sk_next_offset)
        store32 (sk_next_offset + Layout.Sk.sk_prev) (less_header sk_prev_offset))
      else pure tt
  mark_block_unused sk_offset

unfoldable pub delete_sk : ℕ → Cmd (Unit {0})
delete_sk sk_offset = do
  is_sk ← get (is_block sk_offset b's' b'k')
  require is_sk efault
  refcount ← get (load32 (sk_offset + Layout.Sk.refcount))
  require (not (refcount == 0)) einval
  store32 (sk_offset + Layout.Sk.refcount) (refcount - 1)
  if refcount - 1 == 0 then unlink_sk sk_offset else pure tt
