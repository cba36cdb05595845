-- ===== src/Visit/Depth.antt =====
-- A walk is no deeper than there are nodes with their bit set when it begins.
use hivex.Base.{
  ℕ, zero, suc, ◌+◌, ◌*◌, ◌/◌, ◌<◌, ◌≡◌, refl, ap, ◌∙◌, arith, Bool, true, false, List, [], ◌∷◌,
  ltb, if◌then◌else◌,
}
use hivex.Hive.{Hive, eloop, fault}
use hivex.Hive.Bitmap.{bitmap_tst}
use hivex.Hive.Bitmap.Laws.{IsBitmap, clr-IsBitmap}
use hivex.Hive.Bitmap.Count.{tally_bound, tally-clr_set}
use hivex.Node.{node_name}
use hivex.Values.{node_values}
use hivex.Children.{node_children}
use hivex.OffsetList.{until_zero}
use hivex.Strings.{Iconv}
use hivex.Visit.{
  Visitor, Walk, Step, next, bad, refused, crashed, died, Visit, fail, ◌>>=◌, query, call_if, given,
}
use hivex.Visit.Value.{visit_values}
use hivex.Visit.Node.{
  is_unvisited, set_visited, settle, visit_children, visit_record, visit_once, visit_node_loop,
  visit_node, copy_visitor, start_walk,
}
use hivex.Visit.Rule.{AnyEnd, visited, Safe}
use hivex.Visit.Rule.Value.{visit_values-Safe}
use hivex.Visit.Rule.Node.{visit_node_loop-Safe}
use hivex.Visit.Few.{left, Few, Few-Obeys, call_if-Safe, query-Safe, same_after, same_first}

module _ {S : Type 0} (ic : Iconv) (v : Visitor S) (skip : Bool) where
  -- `hivex__visit_node` for at most `n` levels of the recursion; below them comes `otherwise`.
  unfoldable pub levels : (ℕ → Visit S (Unit {0})) → ℕ → ℕ → Visit S (Unit {0})
  levels otherwise zero node w = otherwise node w
  levels otherwise (suc n) node w = settle skip (visit_once ic v skip (levels otherwise n) node w)

  abbrev Calls : Type 0
  Calls = ℕ → Visit S (Unit {0})

  -- The two calls do the same for walks with at most `k` nodes left.
  abbrev Agree : ℕ → Calls → Calls → Type 0
  Agree k f g = (child : ℕ) (w : Walk S) → Few k w → f child w ≡ g child w

  abbrev AllSafe : ℕ → Calls → Type 0
  AllSafe k f = (child : ℕ) → Safe (Few k) AnyEnd (f child)

  visit_children-same :
      (k : ℕ) (f g : Calls) (cs : List ℕ) (w : Walk S)
      → AllSafe k f
      → Agree k f g
      → Few k w
      → visit_children f cs w ≡ visit_children g cs w
  unfolding visit_children
  visit_children-same k f g [] w safe agree i = refl
  visit_children-same k f g (c ∷ cs) w safe agree i =
      same_after k (f c) (λ u. visit_children f cs) (λ u. visit_children g cs) w (safe c w i)
        (λ u w' i'. visit_children-same k f g cs w' safe agree i')
      ∙ same_first (f c) (g c) (λ u. visit_children g cs) w (agree c w i)

  -- A record whose node has just been marked.
  visit_record-same :
      (k : ℕ) (f g : Calls) (node : ℕ) (w : Walk S)
      → AllSafe k f
      → Agree k f g
      → Few k (visited node w)
      → visit_record ic v skip f node w ≡ visit_record ic v skip g node w
  unfolding visit_record set_visited ◌>>=◌
  visit_record-same k f g node w safe agree i =
      same_after k (query (node_name node)) _ _ (visited node w) (query-Safe k _ _ i) λ name w1 i1.
        same_after k (call_if (given v.node_start node) name) _ _ w1 (call_if-Safe k _ name w1 i1)
          λ u w2 i2.
            same_after k (query (node_values node)) _ _ w2 (query-Safe k _ w2 i2) λ values w3 i3.
              same_after k (visit_values ic v node (until_zero values)) _ _ w3
                (visit_values-Safe (Few k) AnyEnd ic v (Few-Obeys k v).values node _ w3 i3)
                λ u' w4 i4.
                  same_after k (query (node_children node)) _ _ w4 (query-Safe k _ w4 i4)
                    λ children w5 i5.
                      same_first (visit_children f _) (visit_children g _) _ w5
                        (visit_children-same k f g _ w5 safe agree i5)

  -- Of the calls for the children, those matter that have fewer nodes left.
  visit_once-same :
      (k : ℕ) (f g : Calls) (node : ℕ) (w : Walk S)
      → ((j : ℕ) → AllSafe j f)
      → ((j : ℕ) → j < k → Agree j f g)
      → Few k w
      → visit_once ic v skip f node w ≡ visit_once ic v skip g node w
  unfolding visit_once is_unvisited ◌>>=◌
  visit_once-same k f g node w safe agree i = by_room (ltb (node / 32) w.room) refl
    where
      fewer :
          ltb (node / 32) w.room ≡ true
          → bitmap_tst w.unvisited node ≡ true
          → left (visited node w) < left w
      fewer p e = tally-clr_set w.unvisited i.bytes node e (8 * w.room) (ground (arith, p))

      by_bit :
          (b : Bool)
          → bitmap_tst w.unvisited node ≡ b
          → ltb (node / 32) w.room ≡ true
          → ((if b then visit_record ic v skip f node else fail eloop) w)
            ≡ ((if b then visit_record ic v skip g node else fail eloop) w)
      by_bit true e p =
          visit_record-same (left (visited node w)) f g node w (safe _)
            (agree _ (omega (arith, fewer p e, i.few)))
            (record { bytes = clr-IsBitmap w.unvisited i.bytes node; few = omega arith })
      by_bit false e p = refl

      by_room :
          (b : Bool)
          → ltb (node / 32) w.room ≡ b
          → (elim (if b then next (bitmap_tst w.unvisited node) w else crashed fault)
              as (λ r'. Step S (Unit {0})) [
                | next a w' ↦ (if a then visit_record ic v skip f node else fail eloop) w'
                | bad e w' ↦ bad e w'
                | refused e w' ↦ refused e w'
                | crashed t ↦ crashed t
                | died t ↦ died t
              ])
            ≡ (elim (if b then next (bitmap_tst w.unvisited node) w else crashed fault)
                as (λ r'. Step S (Unit {0})) [
                  | next a w' ↦ (if a then visit_record ic v skip g node else fail eloop) w'
                  | bad e w' ↦ bad e w'
                  | refused e w' ↦ refused e w'
                  | crashed t ↦ crashed t
                  | died t ↦ died t
                ])
      by_room true p = by_bit (bitmap_tst w.unvisited node) refl p
      by_room false p = refl

  visit_node_loop-levels :
      (otherwise : Calls) (fuel n k node : ℕ) (w : Walk S)
      → k < fuel
      → k < n
      → Few k w
      → visit_node_loop ic v skip fuel node w ≡ levels otherwise n node w
  unfolding visit_node_loop levels
  visit_node_loop-levels otherwise zero n k node w p q i = absurd (omega arith)
  visit_node_loop-levels otherwise (suc fuel) zero k node w p q i = absurd (omega arith)
  visit_node_loop-levels otherwise (suc fuel) (suc n) k node w p q i = ap (settle skip) (
      visit_once-same k (visit_node_loop ic v skip fuel) (levels otherwise n) node w
        (λ j child. visit_node_loop-Safe (Few j) AnyEnd ic v skip (Few-Obeys j v) fuel child)
        (λ j less child w' i'.
          visit_node_loop-levels otherwise fuel n j child w' (omega arith) (omega arith) i')
        i)

-- The recursion of a walk ends, whatever the callbacks do, and on a corrupt hive with cycles too: in
-- a handle whose bitmap consists of bytes, and when the allocator serves the copy of the bitmap, it
-- does not matter what comes below a level that is not less than the number of bits in the bitmap,
-- since no call reaches it.
pub visit_node-levels :
    {S : Type 0} (ic : Iconv) (node : ℕ) (v : Visitor S) (len : ℕ) (skip : Bool) (s : S) (h : Hive)
    (otherwise : ℕ → Visit S (Unit {0})) (n : ℕ)
    → IsBitmap h.bitmap
    → h.grants (1 + h.size / 32) ≡ true
    → 8 * (1 + h.size / 32) < n
    → visit_node ic node v len skip s h
      ≡ levels ic (copy_visitor len v) skip otherwise n node (start_walk s h)
unfolding visit_node
visit_node-levels ic node v len skip s h otherwise n bytes grants enough = rw grants (
    visit_node_loop-levels ic (copy_visitor len v) skip otherwise _ n (8 * (1 + h.size / 32)) node
      (start_walk s h) (omega arith) enough
      (record { bytes = bytes; few = tally_bound h.bitmap _ }))
