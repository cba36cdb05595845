-- ===== src/Tests/Adding.antt =====
-- A child is added to the small hive.
use hivex.Base.{true, ℕ, ◌≡◌, refl, some, List, [], ◌∷◌}
use hivex.Children.{get_children}
use hivex.Hive.{Hive, ok, Outcome, done, failed, crash}
use hivex.Alloc.{
  nr_4k_pages, extend_image, write_page_header, allocate_page, write_block_header, mark_remainder,
  ensure_room, round_up, allocate_block, mark_block_unused,
}
use hivex.Records.{
  char_size, hash_step, hash_loop, le32_bytes, calc_hash, store_key, new_lh_record, move_keys,
  insert_lf_record,
}
use hivex.AddChild.{
  name_order, compare_name_with_nk_name, child_exists, new_nk_record, inherit, find_key, find_posn,
  find_pointer, update_ri, mark_all_unused, link_first, link_sorted, count_child, check_add,
  node_add_child,
}
use hivex.AddChild.Guards.{IsAddable, node_add_child-IsAddable}
use hivex.Tests.{opened_up, sample_hive}

abbrev pub state_of : {A : Type 0} → Outcome A → Hive
state_of (done a h) = h
state_of (failed e h) = h
state_of (crash t) = sample_hive

abbrev pub new_name : List ℕ
new_name = b'X' ∷ []

pub added_child :
    node_add_child 0x1020 (some new_name) sample_hive
    ≡ done 0x2020 (state_of (node_add_child 0x1020 (some new_name) sample_hive))
unfolding opened_up nr_4k_pages extend_image write_page_header allocate_page write_block_header
    mark_remainder ensure_room round_up allocate_block mark_block_unused char_size hash_step
    hash_loop le32_bytes calc_hash store_key new_lh_record move_keys insert_lf_record name_order
    compare_name_with_nk_name child_exists new_nk_record inherit find_key find_posn find_pointer
    update_ri mark_all_unused link_first link_sorted count_child check_add node_add_child
added_child = refl

node_add_child-IsAddable_example : IsAddable sample_hive 0x1020 (some new_name)
node_add_child-IsAddable_example =
    node_add_child-IsAddable sample_hive 0x1020 (some new_name) 0x2020 _ added_child

abbrev pub after_adding : Hive
after_adding = state_of (node_add_child 0x1020 (some new_name) sample_hive)

-- The new child stands behind the old one, and is found by its name.
children_after :
    get_children true 0x1020 after_adding ≡ ok (0x1080 ∷ 0x2020 ∷ 0 ∷ [], 0x2078 ∷ 0 ∷ [])
unfolding opened_up nr_4k_pages extend_image write_page_header allocate_page write_block_header
    mark_remainder ensure_room round_up allocate_block mark_block_unused char_size hash_step
    hash_loop le32_bytes calc_hash store_key new_lh_record move_keys insert_lf_record name_order
    compare_name_with_nk_name child_exists new_nk_record inherit find_key find_posn find_pointer
    update_ri mark_all_unused link_first link_sorted count_child check_add node_add_child
children_after = refl
