-- ===== src/Visit/Rule/Nested.antt =====
-- The rule for what the callbacks for the start and the end of a node open and close: a walk leaves
-- it as deep as it was.
use hivex.Base.{ℕ, suc, zero, ◌/◌, ◌≡◌, refl, Bool, true, false, List, [], ◌∷◌, ltb, if◌then◌else◌}
use hivex.Hive.{Errno, Trap, eloop, fault, Result, ok, err, trap, Read}
use hivex.Hive.Bitmap.{bitmap_tst}
use hivex.Node.{node_name}
use hivex.Values.{node_values}
use hivex.Children.{node_children}
use hivex.OffsetList.{until_zero}
use hivex.Strings.{Iconv}
use hivex.Visit.{
  Visitor, Walk, Step, next, bad, refused, crashed, died, Visit, fail, ◌>>=◌, ◌>>◌, query, call_if,
  given,
}
use hivex.Visit.Value.{visit_values}
use hivex.Visit.Node.{
  is_unvisited, set_visited, settle, visit_children, visit_record, visit_once, visit_node_loop,
}
use hivex.Visit.Rule.{Holds, at_next, at_bad, at_refused, at_crashed, at_died, visited, ValuesObey}
use hivex.Visit.Rule.Value.{visit_values-Safe}

-- `Q` holds of a walk that goes on, `E` of one that meets an internal error.
pub data Runs {S A : Type 0} (Q E : Walk S → Type 0) (D : Trap → Type 0) : Step S A → Type 0 where
  on_next : {a : A} {w : Walk S} → Q w → Runs Q E D (next a w)
  on_bad : {e : Errno} {w : Walk S} → E w → Runs Q E D (bad e w)
  on_refused : {e : Errno} {w : Walk S} → Runs Q E D (refused e w)
  on_crashed : {t : Trap} → Runs Q E D (crashed t)
  on_died : {t : Trap} → D t → Runs Q E D (died t)

abbrev pub Nowhere : {S : Type 0} → Walk S → Type 0
Nowhere w = ⊥

-- `I d` holds `d` nodes deep. When bad nodes are skipped, one that has been started may not be
-- ended.
pub record Nests {S : Type 0} (I : ℕ → Walk S → Type 0) (D : Trap → Type 0) (skip : Bool)
    (vtor : Visitor S) : Type 0 where
  pub mark : (d node : ℕ) (w : Walk S) → I d w → I d (visited node w)
  pub start :
      (d node : ℕ) (name : List ℕ) (w : Walk S)
      → I d w
      → Runs (I (suc d)) Nowhere D (call_if (given vtor.node_start node) name w)
  pub finish :
      (d node : ℕ) (name : List ℕ) (w : Walk S)
      → I (suc d) w
      → Runs (I d) Nowhere D (call_if (given vtor.node_end node) name w)
  pub values : (d : ℕ) → ValuesObey (I (suc d)) D vtor
  pub drop : skip ≡ true → (d : ℕ) (w : Walk S) → I (suc d) w → I d w

module _ {S : Type 0} {D : Trap → Type 0} where
  anyway : {A : Type 0} {Q E : Walk S → Type 0} {r : Step S A} → Runs Q Nowhere D r → Runs Q E D r
  anyway (on_next q) = on_next q
  anyway (on_bad e) = absurd e
  anyway on_refused = on_refused
  anyway on_crashed = on_crashed
  anyway (on_died d) = on_died d

  from_Holds :
      {A : Type 0} {Q E : Walk S → Type 0} {r : Step S A}
      → Holds Q D r
      → ((w : Walk S) → Q w → E w)
      → Runs Q E D r
  from_Holds (at_next q) f = on_next q
  from_Holds (at_bad q) f = on_bad (f _ q)
  from_Holds (at_refused q) f = on_refused
  from_Holds at_crashed f = on_crashed
  from_Holds (at_died d) f = on_died d

  bind_step :
      {A B : Type 0} {P Q E : Walk S → Type 0} (f : A → Visit S B) {r : Step S A}
      → Runs P E D r
      → ((a : A) (w : Walk S) → P w → Runs Q E D (f a w))
      → Runs Q E D (elim r [
        | next a w' ↦ f a w'
        | bad e w' ↦ bad e w'
        | refused e w' ↦ refused e w'
        | crashed t ↦ crashed t
        | died t ↦ died t
      ])
  bind_step f (on_next p) rest = rest _ _ p
  bind_step f (on_bad e) rest = on_bad e
  bind_step f on_refused rest = on_refused
  bind_step f on_crashed rest = on_crashed
  bind_step f (on_died d) rest = on_died d

  bind-Runs :
      {A B : Type 0} (P : Walk S → Type 0) {Q E : Walk S → Type 0} (m : Visit S A)
      (f : A → Visit S B) (w : Walk S)
      → Runs P E D (m w)
      → ((a : A) (w' : Walk S) → P w' → Runs Q E D (f a w'))
      → Runs Q E D ((m >>= f) w)
  unfolding ◌>>=◌
  bind-Runs P m f w first rest = bind_step f first rest

  query-Runs :
      {A B : Type 0} {Q E : Walk S → Type 0} (r : Read A) (f : A → Visit S B) (w : Walk S)
      → E w
      → ((a : A) → Runs Q E D (f a w))
      → Runs Q E D ((query r >>= f) w)
  unfolding ◌>>=◌ query
  query-Runs {A} {B} {Q} {E} r f w e rest = go (r w.hive)
    where
      go :
          (x : Result A)
          → Runs Q E D
              (elim (elim x as (λ x'. Step S A) [
                | ok a ↦ next a w
                | err y ↦ bad y w
                | trap t ↦ crashed t
              ])
                as (λ x'. Step S B) [
                  | next a w' ↦ f a w'
                  | bad y w' ↦ bad y w'
                  | refused y w' ↦ refused y w'
                  | crashed t ↦ crashed t
                  | died t ↦ died t
                ])
      go (ok a) = rest a
      go (err y) = on_bad e
      go (trap t) = on_crashed

module _ {S : Type 0} (I : ℕ → Walk S → Type 0) (D : Trap → Type 0) (ic : Iconv) (vtor : Visitor S)
    (skip : Bool) (nests : Nests I D skip vtor) where
  -- After an internal error, if the walk goes on.
  abbrev Left : ℕ → Walk S → Type 0
  Left d w = skip ≡ true → I d w

  abbrev Visits : (ℕ → Visit S (Unit {0})) → Type 0
  Visits visit = (d node : ℕ) (w : Walk S) → I d w → Runs (I d) Nowhere D (visit node w)

  settle-Runs :
      (d : ℕ) {r : Step S (Unit {0})}
      → Runs (I d) (Left d) D r
      → Runs (I d) Nowhere D (settle skip r)
  unfolding settle
  settle-Runs d (on_next i) = on_next i
  settle-Runs d (on_bad {e = e} {w = w} left) = go skip refl
    where
      go : (b : Bool) → skip ≡ b → Runs (I d) Nowhere D (if b then next tt w else refused e w)
      go true p = on_next (left p)
      go false p = on_refused
  settle-Runs d on_refused = on_refused
  settle-Runs d on_crashed = on_crashed
  settle-Runs d (on_died x) = on_died x

  visit_children-Runs :
      (visit : ℕ → Visit S (Unit {0})) (d : ℕ) (children : List ℕ) (w : Walk S)
      → Visits visit
      → I d w
      → Runs (I d) Nowhere D (visit_children visit children w)
  unfolding visit_children
  visit_children-Runs visit d [] w v i = on_next i
  visit_children-Runs visit d (c ∷ cs) w v i =
      bind-Runs (I d) (visit c) _ w (v d c w i) λ u w' i'. visit_children-Runs visit d cs w' v i'

  after_start :
      (visit : ℕ → Visit S (Unit {0})) (d node : ℕ) (name : List ℕ) (w : Walk S)
      → Visits visit
      → I (suc d) w
      → Runs (I d) (Left d) D (
          (do
            values ← query (node_values node)
            visit_values ic vtor node (until_zero values)
            children ← query (node_children node)
            visit_children visit (until_zero children)
            call_if (given vtor.node_end node) name)
            w)
  after_start visit d node name w v i =
      query-Runs (node_values node) _ w (λ s. nests.drop s d w i)
        λ values.
          bind-Runs (I (suc d)) (visit_values ic vtor node _) _ w
            (from_Holds (visit_values-Safe (I (suc d)) D ic vtor (nests.values d) node _ w i)
              λ w' i' s. nests.drop s d w' i')
            λ u w1 i1.
              query-Runs (node_children node) _ w1 (λ s. nests.drop s d w1 i1)
                λ children.
                  bind-Runs (I (suc d)) (visit_children visit _) _ w1
                    (anyway (visit_children-Runs visit (suc d) _ w1 v i1))
                    λ u' w2 i2. anyway (nests.finish d node name w2 i2)

  visit_record-Runs :
      (visit : ℕ → Visit S (Unit {0})) (d node : ℕ) (w : Walk S)
      → Visits visit
      → I d w
      → Runs (I d) (Left d) D (visit_record ic vtor skip visit node w)
  unfolding visit_record set_visited ◌>>=◌
  visit_record-Runs visit d node w v i =
      query-Runs (node_name node) _ (visited node w) (λ s. nests.mark d node w i)
        λ name.
          bind-Runs (I (suc d)) (call_if (given vtor.node_start node) name) _ (visited node w)
            (anyway (nests.start d node name (visited node w) (nests.mark d node w i)))
            λ u w' i'. after_start visit d node name w' v i'

  visit_once-Runs :
      (visit : ℕ → Visit S (Unit {0})) (d node : ℕ) (w : Walk S)
      → Visits visit
      → I d w
      → Runs (I d) (Left d) D (visit_once ic vtor skip visit node w)
  unfolding visit_once is_unvisited ◌>>=◌
  visit_once-Runs visit d node w v i = by_room (ltb (node / 32) w.room)
    where
      by_bit :
          (b : Bool)
          → Runs
              (I d)
              (Left d)
              D
              ((if b then visit_record ic vtor skip visit node else fail eloop) w)
      by_bit true = visit_record-Runs visit d node w v i
      by_bit false = on_bad λ s. i

      by_room :
          (b : Bool)
          → Runs
              (I d)
              (Left d)
              D
              (elim (if b then next (bitmap_tst w.unvisited node) w else crashed fault)
                as (λ r'. Step S (Unit {0})) [
                  | next a w' ↦ (if a then visit_record ic vtor skip visit node else fail eloop) w'
                  | bad e w' ↦ bad e w'
                  | refused e w' ↦ refused e w'
                  | crashed t ↦ crashed t
                  | died t ↦ died t
                ])
      by_room true = by_bit (bitmap_tst w.unvisited node)
      by_room false = on_crashed

  -- A walk that goes on is as deep as it was.
  pub visit_node_loop-Runs : (fuel : ℕ) → Visits (visit_node_loop ic vtor skip fuel)
  unfolding visit_node_loop
  visit_node_loop-Runs zero d node w i = on_crashed
  visit_node_loop-Runs (suc fuel) d node w i =
      settle-Runs d (visit_once-Runs _ d node w (visit_node_loop-Runs fuel) i)
