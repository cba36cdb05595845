-- ===== src/Tests/Single.antt =====
-- The theorems on single records of the small hive.
use hivex.Base.{◌+◌, some, List, ℕ, ◌≡◌, refl, arith, [], ◌∷◌, true}
use hivex.Hive.{ok}
use hivex.Hive.Bytes.{get32}
use hivex.Block.{block_len, is_valid_block}
use hivex.Hive.Writer.Laws.{Returns}
use hivex.Alloc.{mark_block_unused}
use hivex.Children.Lookup.{LookedUp, node_get_child-LookedUp}
use hivex.Values.Lookup.{node_get_value-LookedUp}
use hivex.Values.Sound.{IsValues, get_values-IsValues}
use hivex.Value.Sound.{IsContent, value_value-IsContent}
use hivex.Node.Sound.{IsName, node_name-IsName}
use hivex.Alloc.Unused.{IsFreed, mark_block_unused-IsFreed}
use hivex.AddChild.{name_order, compare_name_with_nk_name, find_key}
use hivex.AddChild.Position.{IsFound, find_key-IsFound}
use hivex.Delete.{delete_sk}
use hivex.Delete.Sk.{IsReleased, delete_sk-IsReleased}
use hivex.Block.Laws.{IsBlock}
use hivex.Layout.Sk
use hivex.Node.{node_name}
use hivex.OffsetList.{until_zero}
use hivex.Children.{get_children}
use hivex.Values.{get_values, node_get_value}
use hivex.Value.{Content, value_key, value_value}
use hivex.Tests.{opened_up, sample_hive, sample-IsBitmap, child_by_name}

values_of_root : get_values 0x1020 sample_hive ≡ ok (0x10f0 ∷ 0 ∷ [], 0x10e8 ∷ 0 ∷ [])
unfolding opened_up
values_of_root = refl

get_values-IsValues_example : IsValues sample_hive 0x1020 (0x10f0 ∷ 0 ∷ []) (0x10e8 ∷ 0 ∷ [])
get_values-IsValues_example =
    get_values-IsValues sample_hive 0x1020 (0x10f0 ∷ 0 ∷ []) (0x10e8 ∷ 0 ∷ []) values_of_root

abbrev content : Content
content = record { type = 1; bytes = b'h' ∷ 0 ∷ b'i' ∷ 0 ∷ 0 ∷ 0 ∷ [] }

content_of_value : value_value 0x10f0 sample_hive ≡ ok content
unfolding opened_up
content_of_value = refl

value_value-IsContent_example : IsContent sample_hive 0x10f0 content
value_value-IsContent_example = value_value-IsContent sample_hive 0x10f0 content content_of_value

node_get_child-LookedUp_example :
    (children : List ℕ) × (blocks : List ℕ) × (get_children true 0x1020 sample_hive
      ≡ ok (children, blocks))
    × LookedUp sample_hive node_name (b'A' ∷ b'B' ∷ b'c' ∷ []) (until_zero children) 0x1080
node_get_child-LookedUp_example =
    node_get_child-LookedUp sample_hive 0x1020 (b'A' ∷ b'B' ∷ b'c' ∷ []) 0x1080 child_by_name

value_found : node_get_value 0x1020 (b'k' ∷ []) sample_hive ≡ ok 0x10f0
unfolding opened_up
value_found = refl

node_get_value-LookedUp_example :
    (values : List ℕ) × (blocks : List ℕ) × (get_values 0x1020 sample_hive ≡ ok (values, blocks))
    × LookedUp sample_hive value_key (b'k' ∷ []) (until_zero values) 0x10f0
node_get_value-LookedUp_example =
    node_get_value-LookedUp sample_hive 0x1020 (b'k' ∷ []) 0x10f0 value_found

name_of_child : node_name 0x1080 sample_hive ≡ ok (b'A' ∷ b'b' ∷ b'c' ∷ [])
unfolding opened_up
name_of_child = refl

node_name-IsName_example : IsName sample_hive 0x1080 (b'A' ∷ b'b' ∷ b'c' ∷ [])
node_name-IsName_example =
    node_name-IsName sample_hive 0x1080 (b'A' ∷ b'b' ∷ b'c' ∷ []) name_of_child

used_block : block_len 0x1080 sample_hive ≡ ok (0x58, true)
unfolding opened_up
used_block = refl

valid_block : is_valid_block sample_hive 0x1080 ≡ true
unfolding opened_up
valid_block = refl

mark_block_unused-IsFreed_example :
    Returns (λ u h'. IsFreed 0x1080 0x58 sample_hive h') (mark_block_unused 0x1080 sample_hive)
mark_block_unused-IsFreed_example =
    mark_block_unused-IsFreed sample_hive 0x1080 0x58 refl sample-IsBitmap valid_block used_block
      (omega arith)

position_found : find_key (b'A' ∷ b'A' ∷ []) 1 0 0x10e0 sample_hive ≡ ok (some 0)
unfolding opened_up find_key compare_name_with_nk_name name_order
position_found = refl

find_key-IsFound_example : IsFound sample_hive (b'A' ∷ b'A' ∷ []) 1 0 0x10e0 (some 0)
find_key-IsFound_example =
    find_key-IsFound sample_hive (b'A' ∷ b'A' ∷ []) 1 0 0x10e0 (some 0) position_found

security_record : IsBlock sample_hive 0x1120 b's' b'k'
unfolding opened_up
security_record = record { valid = refl; id = refl }

security_length : block_len 0x1120 sample_hive ≡ ok (0x20, true)
unfolding opened_up
security_length = refl

two_references : get32 sample_hive.mem (0x1120 + Sk.refcount) ≡ 2
unfolding opened_up
two_references = refl

delete_sk-IsReleased_example :
    Returns (λ u h'. IsReleased 0x1120 2 0x20 sample_hive h') (delete_sk 0x1120 sample_hive)
delete_sk-IsReleased_example =
    delete_sk-IsReleased sample_hive 0x1120 2 0x20 refl sample-IsBitmap security_record
      security_length (omega arith) (omega arith) two_references (omega arith) (omega arith)
      (λ p. absurd (omega arith))
