-- ===== src/Tests.antt =====
-- Runs of the model on a small hive, and the theorems at it.
pub mod Adding
pub mod Calls
pub mod Deleting
pub mod Documents
pub mod Items
pub mod Setting
pub mod Shells
pub mod Single
pub mod Writing
use hivex.Base.{
  ◌+◌, some, List, ℕ, ◌≤◌, ◌^◌, ◌≡◌, refl, arith, [], ◌∷◌, Bool, true, ◌||◌, ◌&&◌, not, inl,
}
use hivex.Hive.{Hive, ok}
use hivex.Hive.Reader
use hivex.Hive.Writer
use hivex.Hive.Bytes.{get16, get32, get64, put8, put16, put32, put64, fill, put_bytes, get_bytes}
use hivex.Hive.Bitmap.{bit_mask, bitmap_set, bitmap_clr, bitmap_tst}
use hivex.Hive.Memory.{
  load8, load16, load32, load64, load_bytes, write, store8, store16, store32, store64, memset,
  store_bytes, less_header,
}
use hivex.Block.{
  neg_size, block_len, block_id_eq, is_valid_block, is_block, check_nk, check_vk, check_valid,
}
use hivex.Header.{checksum_loop, header_checksum, magic_eq}
use hivex.Hive.Bitmap.Laws.{IsBitmap, set-IsBitmap, tst-set, tst-clr, same_unit}
use hivex.Hive.Reader.Ends.{Ends}
use hivex.Hive.Writer.Laws.{Returns}
use hivex.Open.Sound.{IsOpened, hivex_open-IsOpened}
use hivex.Open.Ends.{hivex_open-Ends}
use hivex.Children.Sound.{IsChildren, get_children-IsChildren}
use hivex.Alloc.{mark_block_unused, round_up, allocate_block}
use hivex.Alloc.Laws.{IsArena}
use hivex.Children.Lookup.{LookedUp, node_get_child-LookedUp}
use hivex.Values.Lookup.{node_get_value-LookedUp}
use hivex.Values.Sound.{IsValues, get_values-IsValues}
use hivex.Value.Sound.{IsContent, value_value-IsContent}
use hivex.Node.Sound.{IsName, node_name-IsName}
use hivex.Alloc.Unused.{IsFreed, mark_block_unused-IsFreed}
use hivex.AddChild.{name_order, compare_name_with_nk_name, find_key}
use hivex.AddChild.Position.{IsFound, find_key-IsFound}
use hivex.Delete.{delete_sk}
use hivex.Delete.Sk.{IsReleased, delete_sk-IsReleased}
use hivex.Block.Laws.{IsBlock}
use hivex.Layout.Sk
use hivex.Alloc.Sound.{Allocated, allocate_block-Allocated}
use hivex.Sample.{sample_bytes, sample_file}
use hivex.Open.{
  note_block, scan_block, scan_blocks, check_page, scan_pages, from_offset32, check_header,
  read_blocks, fresh_handle, hivex_open,
}
use hivex.Node.{hivex_root, node_name}
use hivex.OffsetList.{grow_offset_list, add_to_offset_list, return_offset_list, until_zero}
use hivex.CString.{c_string, case_compare, strcasecmp, strcaseeq, to_lower, to_upper}
use hivex.Children.{
  is_lf, read_keys, lf_children, ri_entry, count_keys, copy_keys, ri_children, subkey_lists,
  get_children, node_children, find_child, node_get_child,
}
use hivex.Values.{read_values, value_lists, get_values, node_values, find_value, node_get_value}
use hivex.Value.{
  Content, value_key_len, value_key, inline_len, is_inline, sub_header, block_data, value_value,
}

-- All that the runs compute with.
unfoldable pub opened_up : ℕ
unfolding Reader.◌>>=◌ Reader.require Reader.assert Writer.◌>>=◌ Writer.require Writer.assert
    Writer.get get16 get32 get64 put8 put16 put32 put64 fill put_bytes get_bytes bit_mask bitmap_set
    bitmap_clr bitmap_tst load8 load16 load32 load64 load_bytes write store8 store16 store32 store64
    memset store_bytes less_header neg_size block_len block_id_eq is_valid_block is_block check_nk
    check_vk check_valid checksum_loop header_checksum magic_eq sample_bytes sample_file note_block
    scan_block scan_blocks check_page scan_pages from_offset32 check_header read_blocks fresh_handle
    hivex_open hivex_root node_name grow_offset_list add_to_offset_list return_offset_list
    until_zero c_string case_compare strcasecmp strcaseeq to_lower to_upper is_lf read_keys
    lf_children ri_entry count_keys copy_keys ri_children subkey_lists get_children node_children
    find_child node_get_child read_values value_lists get_values node_values find_value
    node_get_value value_key_len value_key inline_len is_inline sub_header block_data value_value
opened_up = 0

abbrev pub all_granted : ℕ → Bool
all_granted n = true

abbrev pub sample_hive : Hive
sample_hive = record {
  size = 0x2000;
  writable = true;
  mem = sample_bytes;
  bitmap =
      bitmap_set
        (bitmap_set
          (bitmap_set
            (bitmap_set (bitmap_set (bitmap_set (bitmap_set (λ i. 0) 0x1020) 0x1080) 0x10d8) 0x10e8)
            0x10f0)
          0x1110)
        0x1120;
  rootoffs = 0x1020;
  endpages = 0x2000;
  last_modified = 0;
  endblocks = 0;
  grants = all_granted;
}

open_sample : hivex_open all_granted true (ok sample_file) ≡ ok sample_hive
unfolding opened_up
open_sample = refl

children_of_root : get_children true 0x1020 sample_hive ≡ ok (0x1080 ∷ 0 ∷ [], 0x10d8 ∷ 0 ∷ [])
unfolding opened_up
children_of_root = refl

pub child_by_name : node_get_child 0x1020 (b'A' ∷ b'B' ∷ b'c' ∷ []) sample_hive ≡ ok 0x1080
unfolding opened_up
child_by_name = refl

value_by_name :
    Reader.◌>>=◌ (node_get_value 0x1020 (b'k' ∷ [])) value_value sample_hive
    ≡ ok (record { type = 1; bytes = b'h' ∷ 0 ∷ b'i' ∷ 0 ∷ 0 ∷ 0 ∷ [] })
unfolding opened_up
value_by_name = refl

sample_is_small : sample_file.size ≤ 2 ^ 31
unfolding sample_file
sample_is_small = omega arith

hivex_open-IsOpened_example : IsOpened sample_file sample_hive
hivex_open-IsOpened_example =
    hivex_open-IsOpened all_granted true sample_file sample_hive sample_is_small open_sample

hivex_open-Ends_example : Ends (hivex_open all_granted true (ok sample_file))
hivex_open-Ends_example = hivex_open-Ends all_granted true sample_file sample_is_small

get_children-IsChildren_example :
    IsChildren sample_hive true 0x1020 (0x1080 ∷ 0 ∷ []) (0x10d8 ∷ 0 ∷ [])
get_children-IsChildren_example =
    get_children-IsChildren sample_hive true 0x1020 (0x1080 ∷ 0 ∷ []) (0x10d8 ∷ 0 ∷ [])
      children_of_root

empty-IsBitmap : IsBitmap (λ i. 0)
empty-IsBitmap i = omega arith

pub sample-IsBitmap : IsBitmap sample_hive.bitmap
sample-IsBitmap =
    set-IsBitmap _
      (set-IsBitmap _
        (set-IsBitmap _
          (set-IsBitmap _
            (set-IsBitmap _ (set-IsBitmap _ (set-IsBitmap _ empty-IsBitmap 0x1020) 0x1080) 0x10d8)
            0x10e8)
          0x10f0)
        0x1110)
      0x1120

pub sample-IsArena : IsArena sample_hive
sample-IsArena = record {
  writable = refl;
  granted = λ n. refl;
  bytes = sample-IsBitmap;
  pages_aligned = omega arith;
  blocks_aligned = omega arith;
  header_below = omega arith;
  blocks_below = omega arith;
  page_inside = inl refl;
}

allocate_block-Allocated_example :
    Returns
      (λ o h'. Allocated (round_up 85) b'n' b'k' sample_hive o h')
      (allocate_block 85 b'n' b'k' sample_hive)
allocate_block-Allocated_example =
    allocate_block-Allocated 85 b'n' b'k' sample_hive sample-IsArena (omega arith) (omega arith)

tst-set_example :
    bitmap_tst (bitmap_set (λ i. 0) 0x1020) 0x1024
    ≡ (same_unit 0x1020 0x1024 || bitmap_tst (λ i. 0) 0x1024)
tst-set_example = tst-set (λ i. 0) empty-IsBitmap 0x1020 0x1024

tst-clr_example :
    bitmap_tst (bitmap_clr (λ i. 0) 0x1020) 0x1024
    ≡ (not (same_unit 0x1020 0x1024) && bitmap_tst (λ i. 0) 0x1024)
tst-clr_example = tst-clr (λ i. 0) empty-IsBitmap 0x1020 0x1024
