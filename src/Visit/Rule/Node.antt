-- ===== src/Visit/Rule/Node.antt =====
-- The invariant rule for a node and all below it.
use hivex.Base.{ℕ, zero, suc, ◌≡◌, refl, Bool, true, false, List, [], ◌∷◌, ltb, ◌/◌, if◌then◌else◌}
use hivex.Hive.{eloop, fault, Trap}
use hivex.Hive.Bitmap.{bitmap_tst}
use hivex.Node.{node_name}
use hivex.Values.{node_values}
use hivex.Children.{node_children}
use hivex.OffsetList.{until_zero}
use hivex.Strings.{Iconv}
use hivex.Visit.{
  Visitor, Walk, Step, next, bad, refused, crashed, died, Visit, fail, ◌>>=◌, ◌>>◌, query, call_if,
  given,
}
use hivex.Visit.Value.{visit_values}
use hivex.Visit.Node.{
  is_unvisited, set_visited, settle, visit_children, visit_record, visit_once, visit_node_loop,
}
use hivex.Visit.Rule.{
  Holds, at_next, at_bad, at_refused, at_crashed, at_died, visited, Safe, Obeys, bind-Safe,
  query-Safe, query-Holds, bind-Holds, pure-Safe,
}
use hivex.Visit.Rule.Value.{visit_values-Safe}

module _ {S : Type 0} (I : Walk S → Type 0) (D : Trap → Type 0) where
  settle-Holds : (skip : Bool) {r : Step S (Unit {0})} → Holds I D r → Holds I D (settle skip r)
  unfolding settle
  settle-Holds skip (at_next i) = at_next i
  settle-Holds true (at_bad i) = at_next i
  settle-Holds false (at_bad i) = at_refused i
  settle-Holds skip (at_refused i) = at_refused i
  settle-Holds skip at_crashed = at_crashed
  settle-Holds skip (at_died d) = at_died d

  pub visit_children-Safe :
      (visit : ℕ → Visit S (Unit {0})) (children : List ℕ)
      → ((child : ℕ) → Safe I D (visit child))
      → Safe I D (visit_children visit children)
  unfolding visit_children
  visit_children-Safe visit [] safe = pure-Safe I D
  visit_children-Safe visit (c ∷ cs) safe =
      bind-Safe I D _ _ (safe c) λ _. visit_children-Safe visit cs safe

  module _ (ic : Iconv) (vtor : Visitor S) (skip : Bool) (ok : Obeys I D vtor) where
    -- After the name of the node has been read.
    after_start :
        (visit : ℕ → Visit S (Unit {0})) (node : ℕ) (name : List ℕ)
        → ((child : ℕ) → Safe I D (visit child))
        → Safe I D (do
          values ← query (node_values node)
          visit_values ic vtor node (until_zero values)
          children ← query (node_children node)
          visit_children visit (until_zero children)
          call_if (given vtor.node_end node) name)
    after_start visit node name safe = query-Safe I D _ _ λ values.
        bind-Safe I D _ _ (visit_values-Safe I D ic vtor ok.values node _) λ _.
          query-Safe I D _ _ λ children.
            bind-Safe I D _ _ (visit_children-Safe visit _ safe) λ _. ok.finish node name

    -- The record of a node whose bit has just been found set.
    visit_record-Holds :
        (visit : ℕ → Visit S (Unit {0})) (node : ℕ) (w : Walk S)
        → ((child : ℕ) → Safe I D (visit child))
        → I w
        → bitmap_tst w.unvisited node ≡ true
        → Holds I D (visit_record ic vtor skip visit node w)
    unfolding visit_record set_visited ◌>>=◌
    visit_record-Holds visit node w safe i set =
        query-Holds I D (node_name node) _ (visited node w) (ok.mark node w i set) λ name read.
          bind-Holds I D (call_if (given vtor.node_start node) name) _ (visited node w)
            (ok.start node name w i set) λ _. after_start visit node name safe

    visit_once-Safe :
        (visit : ℕ → Visit S (Unit {0})) (node : ℕ)
        → ((child : ℕ) → Safe I D (visit child))
        → Safe I D (visit_once ic vtor skip visit node)
    unfolding visit_once is_unvisited ◌>>=◌
    visit_once-Safe visit node safe w i = by_room (ltb (node / 32) w.room)
      where
        by_bit :
            (b : Bool)
            → bitmap_tst w.unvisited node ≡ b
            → Holds I D ((if b then visit_record ic vtor skip visit node else fail eloop) w)
        by_bit true e = visit_record-Holds visit node w safe i e
        by_bit false e = at_bad i

        by_room :
            (b : Bool)
            → Holds I D
                (elim (if b then next (bitmap_tst w.unvisited node) w else crashed fault)
                  as (λ r'. Step S (Unit {0})) [
                    | next a w' ↦
                        (if a then visit_record ic vtor skip visit node else fail eloop) w'
                    | bad e w' ↦ bad e w'
                    | refused e w' ↦ refused e w'
                    | crashed t ↦ crashed t
                    | died t ↦ died t
                  ])
        by_room true = by_bit (bitmap_tst w.unvisited node) refl
        by_room false = at_crashed

    -- What the marking and all callbacks keep, the walk keeps.
    pub visit_node_loop-Safe : (fuel node : ℕ) → Safe I D (visit_node_loop ic vtor skip fuel node)
    unfolding visit_node_loop
    visit_node_loop-Safe zero node w i = at_crashed
    visit_node_loop-Safe (suc fuel) node w i =
        settle-Holds skip
          (visit_once-Safe (visit_node_loop ic vtor skip fuel) node (visit_node_loop-Safe fuel) w i)
