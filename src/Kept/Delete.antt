-- ===== src/Kept/Delete.antt =====
-- `hivex_node_delete_child`, with the walk over the node, keeps the handle in order.
use hivex.Base.{
  ℕ, zero, suc, ◌+◌, ◌≡◌, ◌∙◌, ◌*◌, ◌/◌, Bool, true, false, List, [], ◌∷◌, if◌then◌else◌,
}
use hivex.Hive.{Hive, enomem, Outcome, done, failed, crash, Cmd}
use hivex.Strings.{Iconv}
use hivex.Delete.{delete_sk}
use hivex.Alloc.{mark_block_unused}
use hivex.Visit.{Reply, continue, refuse, die, Walk, Step, next, refused, died, call, call_if}
use hivex.Visit.Node.{copy_visitor, visitor_size, visit_node, visit_node_loop, start_walk}
use hivex.Visit.Rule.{Holds, at_next, at_bad, at_refused, at_crashed, at_died, AnyEnd, Obeys}
use hivex.Visit.Rule.Node.{visit_node_loop-Safe}
use hivex.DeleteChild.{
  release, delete_node, as_callback, deleting, as_outcome, delete_tree, unlink_key, unlink_child,
  check_delete, node_delete_child,
}
use hivex.Kept.{
  Kept, Kept-refl, Kept-trans, Keeps, at_done, at_failed, at_crash, Steady, bind-Steady, if-Steady,
  done-Steady, failed-Steady, get-Steady, asks-Steady, require-Steady, store16-Steady,
  store32-Steady,
}
use hivex.Kept.Alloc.{mark_block_unused-Steady}
use hivex.Kept.Change.{move_keys-Steady}
use hivex.Kept.Add.{mark_all_unused-Steady}
use hivex.Kept.SetValues.{delete_values-Steady, delete_sk-Steady}

release-Steady :
    (field : ℕ) (f : ℕ → Cmd (Unit {0})) → ((o : ℕ) → Steady (f o)) → Steady (release field f)
unfolding release
release-Steady field f steady =
    bind-Steady _ _ (get-Steady _)
      λ o. if-Steady _ (done-Steady tt) (bind-Steady _ _ (steady _) λ _. store32-Steady _ _)

delete_node-Steady : (node : ℕ) → Steady (delete_node node)
unfolding delete_node
delete_node-Steady node = bind-Steady _ _ (get-Steady _) λ (children, blocks).
    bind-Steady _ _ (mark_all_unused-Steady _) λ _. bind-Steady _ _ (delete_values-Steady node) λ _.
      bind-Steady _ _ (release-Steady _ delete_sk delete_sk-Steady) λ _.
        bind-Steady _ _ (release-Steady _ mark_block_unused mark_block_unused-Steady)
          λ _. mark_block_unused-Steady node

module _ (h : Hive) (w : h.writable ≡ true) where
  abbrev InOrder : Walk (Unit {0}) → Type 0
  InOrder x = Kept h x.hive

  -- A steady command as the callback of a walk.
  call-Holds :
      (m : Cmd (Unit {0})) (x : Walk (Unit {0}))
      → Steady m
      → InOrder x
      → Holds InOrder AnyEnd (call (as_callback m) x)
  unfolding call as_callback
  call-Holds m x steady k = go (steady x.hive (k.writable ∙ w))
    where
      go :
          {r : Outcome (Unit {0})}
          → Keeps x.hive r
          → Holds InOrder AnyEnd
              (elim (elim r as (λ r'. Reply (Unit {0})) [
                | done u h' ↦ continue tt h'
                | failed e h' ↦ refuse e tt h'
                | crash t ↦ die t
              ])
                as (λ r'. Step (Unit {0}) (Unit {0})) [
                  | continue s h' ↦ next tt (record x { hive = h'; opaque = s })
                  | refuse e s h' ↦ refused e (record x { hive = h'; opaque = s })
                  | die t ↦ died t
                ])
      go (at_done l) = at_next (Kept-trans k l)
      go (at_failed l) = at_refused (Kept-trans k l)
      go at_crash = at_died tt

  deleting-Obeys : Obeys InOrder AnyEnd (copy_visitor visitor_size deleting)
  unfolding copy_visitor call_if
  deleting-Obeys = record {
    mark = λ node x k set. k;
    start = λ node name x k set. at_next k;
    finish = λ node name x k. call-Holds (delete_node node) x (delete_node-Steady node) k;
    values = record {
      string = λ i s t x k. at_next k;
      multiple_strings = λ i s t x k. at_next k;
      string_invalid = λ i s t x k. at_next k;
      dword = λ i s t x k. at_next k;
      qword = λ i s t x k. at_next k;
      binary = λ i s t x k. at_next k;
      none_value = λ i s t x k. at_next k;
      other_value = λ i s t x k. at_next k;
      any_value = λ i s x k. at_next k;
    };
  }

  as_outcome-Keeps :
      {r : Step (Unit {0}) (Unit {0})} → Holds InOrder AnyEnd r → Keeps h (as_outcome r)
  unfolding as_outcome
  as_outcome-Keeps (at_next k) = at_done k
  as_outcome-Keeps (at_bad k) = at_failed k
  as_outcome-Keeps (at_refused k) = at_failed k
  as_outcome-Keeps at_crashed = at_crash
  as_outcome-Keeps (at_died d) = at_crash

delete_tree-Steady : (ic : Iconv) (node : ℕ) → Steady (delete_tree ic node)
unfolding delete_tree visit_node
delete_tree-Steady ic node h w = as_outcome-Keeps h w (by_memory (h.grants (1 + h.size / 32)))
  where
    by_memory :
        (b : Bool)
        → Holds (InOrder h w) AnyEnd (
            if b
            then visit_node_loop ic
                (copy_visitor visitor_size deleting)
                false
                (8 * (1 + h.size / 32) + 1)
                node
                (start_walk tt h)
            else refused enomem (start_walk tt h))
    by_memory true =
        visit_node_loop-Safe (InOrder h w) AnyEnd ic (copy_visitor visitor_size deleting) false
          (deleting-Obeys h w) _ node (start_walk tt h) (Kept-refl h)
    by_memory false = at_refused (Kept-refl h)

unlink_key-Steady : (node n o : ℕ) → Steady (unlink_key node n o)
unfolding unlink_key
unlink_key-Steady node zero o = done-Steady false
unlink_key-Steady node (suc n) o = bind-Steady _ _ (get-Steady _) λ _.
    if-Steady _ (bind-Steady _ _ (move_keys-Steady _ _ _) λ _. done-Steady true)
      (unlink_key-Steady node n (o + 8))

unlink_child-Steady : (node : ℕ) (blocks : List ℕ) → Steady (unlink_child node blocks)
unfolding unlink_child
unlink_child-Steady node [] = failed-Steady _
unlink_child-Steady node (b ∷ bs) = bind-Steady _ _ (get-Steady _) λ lf.
    bind-Steady _ _ (if-Steady lf (get-Steady _) (done-Steady _)) λ n.
      bind-Steady _ _ (unlink_key-Steady node n _)
        λ found. if-Steady found (store16-Steady _ _) (unlink_child-Steady node bs)

check_delete-Steady : (node : ℕ) → Steady (check_delete node)
unfolding check_delete
check_delete-Steady node = bind-Steady _ _ (asks-Steady _) λ _.
    bind-Steady _ _ (require-Steady _ _) λ _. bind-Steady _ _ (get-Steady _) λ _.
      bind-Steady _ _ (asks-Steady _) λ _. bind-Steady _ _ (require-Steady _ _) λ _. get-Steady _

pub node_delete_child-Steady : (ic : Iconv) (node : ℕ) → Steady (node_delete_child ic node)
unfolding node_delete_child
node_delete_child-Steady ic node = bind-Steady _ _ (check_delete-Steady node) λ parent.
    bind-Steady _ _ (delete_tree-Steady ic node) λ _.
      bind-Steady _ _ (get-Steady _) λ (children, blocks).
        bind-Steady _ _ (unlink_child-Steady node _)
          λ _. bind-Steady _ _ (get-Steady _) λ _. store32-Steady _ _
