-- ===== src/Kept/Add.antt =====
-- `hivex_node_add_child` keeps the handle in order.
use hivex.Base.{ℕ, Option, none, some, List, [], ◌∷◌}
use hivex.Hive.{Cmd}
use hivex.Hive.Memory.{less_header, store32}
use hivex.AddChild.{
  update_ri, mark_all_unused, link_first, link_sorted, count_child, check_add, node_add_child,
}
use hivex.Kept.{
  Steady, bind-Steady, if-Steady, done-Steady, failed-Steady, get-Steady, asks-Steady,
  require-Steady, store16-Steady, store32-Steady,
}
use hivex.Kept.Alloc.{mark_block_unused-Steady}
use hivex.Kept.Change.{
  new_lh_record-Steady, insert_lf_record-Steady, new_nk_record-Steady, inherit-Steady,
  find_posn-Steady,
}

update_ri-Steady : (blocks : List ℕ) (old new : ℕ) → Steady (update_ri blocks old new)
unfolding update_ri
update_ri-Steady [] old new = failed-Steady _
update_ri-Steady (b ∷ bs) old new = bind-Steady _ _ (get-Steady _) λ ri.
    bind-Steady _ _ (if-Steady ri (get-Steady _) (done-Steady _)) λ _.
      bind-Steady _ _ (get-Steady _)
        (found (update_ri bs old new) (update_ri-Steady bs old new) new)
  where
    found :
        (m : Cmd (Unit {0}))
        → Steady m
        → (new : ℕ) (r : Option ℕ)
        → Steady
            (elim r as (λ r'. Cmd (Unit {0})) [ some o ↦ store32 o (less_header new) | none ↦ m ])
    found m steady new (some o) = store32-Steady _ _
    found m steady new none = steady

pub mark_all_unused-Steady : (blocks : List ℕ) → Steady (mark_all_unused blocks)
unfolding mark_all_unused
mark_all_unused-Steady [] = done-Steady tt
mark_all_unused-Steady (b ∷ bs) =
    bind-Steady _ _ (mark_block_unused-Steady b) λ _. mark_all_unused-Steady bs

module _ (parent : ℕ) (name : List ℕ) where
  link_first-Steady : (node : ℕ) (blocks : List ℕ) → Steady (link_first parent name node blocks)
  unfolding link_first
  link_first-Steady node blocks =
      bind-Steady _ _ (mark_all_unused-Steady blocks)
        λ _. bind-Steady _ _ (new_lh_record-Steady name node) λ _. store32-Steady _ _

  link_sorted-Steady : (node : ℕ) (blocks : List ℕ) → Steady (link_sorted parent name node blocks)
  unfolding link_sorted
  link_sorted-Steady node blocks = bind-Steady _ _ (find_posn-Steady name blocks 0) λ (old, j).
      bind-Steady _ _ (insert_lf_record-Steady old j name node) λ new.
        bind-Steady _ _ (get-Steady _)
          λ _. if-Steady _ (store32-Steady _ _) (update_ri-Steady blocks old new)

  count_child-Steady : (n : ℕ) → Steady (count_child parent name n)
  unfolding count_child
  count_child-Steady n =
      bind-Steady _ _ (store32-Steady _ _)
        λ _. bind-Steady _ _ (get-Steady _) λ _. if-Steady _ (store16-Steady _ _) (done-Steady tt)

check_add-Steady : (parent : ℕ) (name? : Option (List ℕ)) → Steady (check_add parent name?)
unfolding check_add
check_add-Steady parent none = bind-Steady _ _ (asks-Steady _) λ _.
    bind-Steady _ _ (require-Steady _ _) λ _. bind-Steady _ _ (get-Steady _) λ _. failed-Steady _
check_add-Steady parent (some name) = bind-Steady _ _ (asks-Steady _) λ _.
    bind-Steady _ _ (require-Steady _ _) λ _. bind-Steady _ _ (get-Steady _) λ _.
      bind-Steady _ _ (require-Steady _ _) λ _.
        bind-Steady _ _ (get-Steady _) λ _. bind-Steady _ _ (require-Steady _ _) λ _. done-Steady _

pub node_add_child-Steady :
    (parent : ℕ) (name? : Option (List ℕ)) → Steady (node_add_child parent name?)
unfolding node_add_child
node_add_child-Steady parent name? = bind-Steady _ _ (check_add-Steady parent name?) λ name.
    bind-Steady _ _ (new_nk_record-Steady parent name) λ node.
      bind-Steady _ _ (inherit-Steady parent node) λ _.
        bind-Steady _ _ (get-Steady _) λ (children, blocks). bind-Steady _ _ (get-Steady _) λ n.
          bind-Steady _ _
            (if-Steady _ (link_first-Steady parent name node _)
              (link_sorted-Steady parent name node _))
            λ _. bind-Steady _ _ (count_child-Steady parent name n) λ _. done-Steady _
