-- ===== src/Tests/Deleting.antt =====
-- The child of the small hive is deleted.
use hivex.Base.{ℕ, ◌≡◌, refl, true, none, [], ◌∷◌}
use hivex.Hive.{Hive, ok, done}
use hivex.Alloc.{mark_block_unused}
use hivex.AddChild.{mark_all_unused}
use hivex.Records.{move_keys}
use hivex.Delete.{delete_each, delete_values, unlink_sk, delete_sk}
use hivex.Value.{value_type}
use hivex.Strings.{Iconv, converted}
use hivex.Visit
use hivex.Visit.{query, attempt, call, call_if, is_invalid}
use hivex.Visit.Value.{
  visit_bytes, visit_typed, visit_invalid, visit_text, visit_string, visit_multiple_strings,
  visit_dword, visit_qword, visit_switch, visit_value, visit_values,
}
use hivex.Visit.Node.{
  is_unvisited, set_visited, settle, visit_children, visit_record, visit_once, visit_node_loop,
  copy_visitor, visit_node, root_or_zero, hivex_visit,
}
use hivex.Children.{get_children}
use hivex.Node.{node_parent}
use hivex.DeleteChild.{
  release, delete_node, as_callback, as_outcome, delete_tree, unlink_key, unlink_child,
  check_delete, node_delete_child,
}
use hivex.Tests.{opened_up, sample_hive}
use hivex.Tests.Adding.{state_of}

abbrev pub plain : Iconv
plain = record { opens = none; convert = λ input room. converted input }

unfoldable deletion : ℕ
unfolding opened_up mark_block_unused mark_all_unused move_keys delete_each delete_values unlink_sk
    delete_sk value_type Visit.◌>>=◌ query attempt call call_if is_invalid visit_bytes visit_typed
    visit_invalid visit_text visit_string visit_multiple_strings visit_dword visit_qword
    visit_switch visit_value visit_values is_unvisited set_visited settle visit_children
    visit_record visit_once visit_node_loop copy_visitor visit_node root_or_zero hivex_visit release
    delete_node as_callback as_outcome delete_tree unlink_key unlink_child check_delete
    node_delete_child
deletion = 0

abbrev pub after_deleting : Hive
after_deleting = state_of (node_delete_child plain 0x1080 sample_hive)

pub deleted : node_delete_child plain 0x1080 sample_hive ≡ done tt after_deleting
unfolding deletion node_parent
deleted = refl

children_left : get_children true 0x1020 after_deleting ≡ ok (0 ∷ [], 0 ∷ [])
unfolding deletion node_parent
children_left = refl
