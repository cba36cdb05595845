-- ===== src/Kept/SetValues.antt =====
-- The deletion and the setting of values, and `delete_sk`, keep the handle in order.
use hivex.Base.{ℕ, ◌+◌, List, [], ◌∷◌}
use hivex.Delete.{delete_each, delete_values, unlink_sk, delete_sk}
use hivex.SetValues.{
  SetValue, store_vk, store_data, raise_to, set_one, set_each, write_values, node_set_values,
  node_set_value,
}
use hivex.Kept.{
  Steady, bind-Steady, if-Steady, done-Steady, get-Steady, asks-Steady, require-Steady,
  assert-Steady, malloc-Steady, store16-Steady, store32-Steady, store_bytes-Steady,
}
use hivex.Kept.Alloc.{allocate_block-Steady, mark_block_unused-Steady}
use hivex.Kept.Add.{mark_all_unused-Steady}

delete_each-Steady : (values : List ℕ) → Steady (delete_each values)
unfolding delete_each
delete_each-Steady [] = done-Steady tt
delete_each-Steady (v ∷ vs) = bind-Steady _ _ (get-Steady _) λ _.
    bind-Steady _ _
      (if-Steady _ (done-Steady tt)
        (bind-Steady _ _ (get-Steady _) λ _. mark_block_unused-Steady _))
      λ _. bind-Steady _ _ (mark_block_unused-Steady v) λ _. delete_each-Steady vs

pub delete_values-Steady : (node : ℕ) → Steady (delete_values node)
unfolding delete_values
delete_values-Steady node = bind-Steady _ _ (asks-Steady _) λ _.
    bind-Steady _ _ (assert-Steady _) λ _. bind-Steady _ _ (get-Steady _) λ (values, blocks).
      bind-Steady _ _ (mark_all_unused-Steady _) λ _.
        bind-Steady _ _ (delete_each-Steady _)
          λ _. bind-Steady _ _ (store32-Steady _ _) λ _. store32-Steady _ _

pub delete_sk-Steady : (o : ℕ) → Steady (delete_sk o)
unfolding delete_sk unlink_sk
delete_sk-Steady o = bind-Steady _ _ (get-Steady _) λ _. bind-Steady _ _ (require-Steady _ _) λ _.
    bind-Steady _ _ (get-Steady _) λ _.
      bind-Steady _ _ (require-Steady _ _)
        λ _. bind-Steady _ _ (store32-Steady _ _) λ _. if-Steady _ unlink (done-Steady tt)
  where
    unlink : Steady (unlink_sk o)
    unlink = bind-Steady _ _ (get-Steady _) λ _. bind-Steady _ _ (get-Steady _) λ _.
        bind-Steady _ _
          (if-Steady _ (bind-Steady _ _ (store32-Steady _ _) λ _. store32-Steady _ _)
            (done-Steady tt))
          λ _. mark_block_unused-Steady o

raise_to-Steady : (field n : ℕ) → Steady (raise_to field n)
unfolding raise_to
raise_to-Steady field n =
    bind-Steady _ _ (get-Steady _) λ _. if-Steady _ (store32-Steady _ _) (done-Steady tt)

store_vk-Steady : (o : ℕ) (v : SetValue) → Steady (store_vk o v)
unfolding store_vk
store_vk-Steady o v = bind-Steady _ _ (store16-Steady _ _) λ _.
    bind-Steady _ _ (store_bytes-Steady _ _) λ _.
      bind-Steady _ _ (store32-Steady _ _)
        λ _. bind-Steady _ _ (store32-Steady _ _) λ _. store16-Steady _ _

store_data-Steady : (o : ℕ) (value : List ℕ) → Steady (store_data o value)
unfolding store_data
store_data-Steady o value = if-Steady _ (store_bytes-Steady _ _) (
    bind-Steady _ _ (allocate_block-Steady _ _ _)
      λ _. bind-Steady _ _ (store_bytes-Steady _ _) λ _. store32-Steady _ _)

set_each-Steady : (node slot : ℕ) (vs : List SetValue) → Steady (set_each node slot vs)
unfolding set_each set_one
set_each-Steady node slot [] = done-Steady tt
set_each-Steady node slot (v ∷ vs) =
    bind-Steady _ _
      (bind-Steady _ _ (allocate_block-Steady _ _ _) λ vk_offs.
        bind-Steady _ _ (store32-Steady _ _) λ _. bind-Steady _ _ (store_vk-Steady vk_offs v) λ _.
          bind-Steady _ _ (store_data-Steady vk_offs v.value)
            λ _. bind-Steady _ _ (raise_to-Steady _ _) λ _. raise_to-Steady _ _)
      λ _. set_each-Steady node (slot + 4) vs

pub node_set_values-Steady : (node : ℕ) (vs : List SetValue) → Steady (node_set_values node vs)
unfolding node_set_values write_values
node_set_values-Steady node vs = bind-Steady _ _ (asks-Steady _) λ _.
    bind-Steady _ _ (require-Steady _ _) λ _. bind-Steady _ _ (get-Steady _) λ _.
      bind-Steady _ _ (delete_values-Steady node) λ _. if-Steady _ (done-Steady tt) (
        bind-Steady _ _ (allocate_block-Steady _ _ _) λ vallist.
          bind-Steady _ _ (store32-Steady _ _)
            λ _. bind-Steady _ _ (store32-Steady _ _) λ _. set_each-Steady node _ vs)

pub node_set_value-Steady : (node : ℕ) (v : SetValue) → Steady (node_set_value node v)
unfolding node_set_value
node_set_value-Steady node v = bind-Steady _ _ (get-Steady _) λ _.
    bind-Steady _ _ (malloc-Steady _) λ _. bind-Steady _ _ (get-Steady _) λ _.
      bind-Steady _ _ (malloc-Steady _)
        λ _. bind-Steady _ _ (malloc-Steady _) λ _. node_set_values-Steady node _
