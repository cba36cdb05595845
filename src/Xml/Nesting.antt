-- ===== src/Xml/Nesting.antt =====
-- The walk of xml/hivexml.c leaves the document in the element that it found it in.
use hivex.Base.{
  ◌+◌, ◌*◌, ◌/◌, if◌then◌else◌, ℕ, zero, suc, ◌≤◌, ◌≡◌, ◌≢◌, refl, arith, Bool, true, false, List,
  [], ◌∷◌,
}
use hivex.Hive.{Hive, Trap, abort, enomem}
use hivex.Visit.{Reply, continue, refuse, die, Walk, Step, next, refused, died, call, call_if}
use hivex.Visit.Node.{
  copy_visitor, visitor_size, root_or_zero, visit_node, hivex_visit, visit_node_loop, start_walk,
}
use hivex.Node.{hivex_root}
use hivex.Strings.{Iconv}
use hivex.Visit.Rule.{Holds, at_next, at_died, ValuesObey}
use hivex.Visit.Rule.Nested.{
  Runs, on_next, on_refused, on_died, Nowhere, Nests, visit_node_loop-Runs,
}
use hivex.Xml.{Element, Writer, Log, Action}
use hivex.Xml.Callbacks.{node_start, node_end, value_dword, value_qword, xml_visitor}
use hivex.Xml.Document.{IsIn}
use hivex.Xml.Document.Actions.{Writes, goes_on, ends, Leads, weaken-Writes}
use hivex.Xml.Document.Values.{
  value_string-Within, value_multiple_strings-Within, value_string_invalid_utf16-Within,
  value_number-Within, value_binary-Within, value_none-Within, value_other-Within,
}
use hivex.Xml.Document.Nodes.{node_start-Leads, node_end-Leads}

-- The element that is open `n` nodes deep, and those around it.
abbrev pub element_at : ℕ → Element
element_at zero = Element.hive
element_at (suc n) = Element.node

abbrev pub around : ℕ → List Element
around zero = []
around (suc n) = element_at n ∷ around n

abbrev pub IsAt : ℕ → Log → Type 0
IsAt n = IsIn (element_at n) (around n)

-- At least `d` nodes are open, and no more unless bad nodes are skipped.
abbrev pub IsNested : Bool → ℕ → Log → Type 0
IsNested skip d log = (n : ℕ) × (d ≤ n) × (skip ≡ false → n ≡ d) × IsAt n log

abbrev pub Calm : Trap → Type 0
Calm t = t ≢ abort

module _ (skip : Bool) where
  abbrev pub Inside : ℕ → Walk Log → Type 0
  Inside d w = IsNested skip d w.opaque

  -- An action as the callback of a walk.
  call-Holds :
      (d : ℕ) (a : Action) (w : Walk Log)
      → ((n : ℕ) → Leads (IsAt n) (IsAt n) a)
      → Inside d w
      → Holds (Inside d) Calm (call a w)
  unfolding call
  call-Holds d a w leads (n, deep, exact, at) = go (leads n w.opaque w.hive at)
    where
      go :
          {r : Reply Log}
          → Writes (IsAt n) w.hive r
          → Holds (Inside d) Calm (elim r as (λ r'. Step Log (Unit {0})) [
            | continue s h ↦ next tt (record w { hive = h; opaque = s })
            | refuse e s h ↦ refused e (record w { hive = h; opaque = s })
            | die t ↦ died t
          ])
      go (goes_on at') = at_next (n, deep, exact, at')
      go (ends calm) = at_died calm

  call-Runs :
      (d : ℕ) (a : Action) (w : Walk Log)
      → Writes (IsNested skip d) w.hive (a w.opaque w.hive)
      → Runs (Inside d) Nowhere Calm (call a w)
  unfolding call
  call-Runs d a w writes = go writes
    where
      go :
          {r : Reply Log}
          → Writes (IsNested skip d) w.hive r
          → Runs (Inside d) Nowhere Calm (elim r as (λ r'. Step Log (Unit {0})) [
            | continue s h ↦ next tt (record w { hive = h; opaque = s })
            | refuse e s h ↦ refused e (record w { hive = h; opaque = s })
            | die t ↦ died t
          ])
      go (goes_on i) = on_next i
      go (ends calm) = on_died calm

  module _ (xml : Writer) where
    start-Writes :
        (d node : ℕ) (name : List ℕ) (log : Log) (h : Hive)
        → IsNested skip d log
        → Writes (IsNested skip (suc d)) h (node_start xml node name log h)
    start-Writes d node name log h (n, deep, exact, at) =
        weaken-Writes (node_start-Leads xml (element_at n) (around n) node name log h at)
          λ l at'. (suc n, omega arith, λ off. omega (arith, exact off), at')

    end-Writes :
        (d node : ℕ) (name : List ℕ) (log : Log) (h : Hive)
        → IsNested skip (suc d) log
        → Writes (IsNested skip d) h (node_end xml node name log h)
    end-Writes d node name log h (zero, deep, exact, at) = absurd (omega arith)
    end-Writes d node name log h (suc n, deep, exact, at) =
        weaken-Writes (node_end-Leads xml (element_at n) (around n) node name log h at)
          λ l at'. (n, omega arith, λ off. omega (arith, exact off), at')

    drop-IsNested :
        skip ≡ true → (d : ℕ) (log : Log) → IsNested skip (suc d) log → IsNested skip d log
    drop-IsNested on d log (n, deep, exact, at) =
        (n, omega arith, λ off. absurd (ground (arith, on, off)), at)

    values-Obey : (d : ℕ) → ValuesObey (Inside d) Calm (copy_visitor visitor_size (xml_visitor xml))
    unfolding copy_visitor call_if value_dword value_qword
    values-Obey d = record {
      string =
          λ i s t w. call-Holds d _ w λ n. value_string-Within xml (element_at n) (around n) i s t;
      multiple_strings = λ i s t w.
          call-Holds d _ w λ n. value_multiple_strings-Within xml (element_at n) (around n) i s;
      string_invalid = λ i s t w.
          call-Holds d _ w
            λ n. value_string_invalid_utf16-Within xml (element_at n) (around n) i s t;
      dword = λ i v t w.
          call-Holds d _ w λ n. value_number-Within xml (element_at n) (around n) _ _ i v;
      qword = λ i v t w.
          call-Holds d _ w λ n. value_number-Within xml (element_at n) (around n) _ _ i v;
      binary =
          λ i s t w. call-Holds d _ w λ n. value_binary-Within xml (element_at n) (around n) i s;
      none_value =
          λ i s t w. call-Holds d _ w λ n. value_none-Within xml (element_at n) (around n) i s;
      other_value =
          λ i s t w. call-Holds d _ w λ n. value_other-Within xml (element_at n) (around n) i s t;
      any_value = λ i s w inv. at_next inv;
    }

    xml-Nests : Nests Inside Calm skip (copy_visitor visitor_size (xml_visitor xml))
    unfolding copy_visitor call_if
    xml-Nests = record {
      mark = λ d node w i. i;
      start = λ d node name w i. call-Runs (suc d) _ w (start-Writes d node name w.opaque w.hive i);
      finish = λ d node name w i. call-Runs d _ w (end-Writes d node name w.opaque w.hive i);
      values = λ d. values-Obey (suc d);
      drop = λ on d w i. drop-IsNested on d w.opaque i;
    }

    pub hivex_visit-Runs :
        (ic : Iconv) (log : Log) (h : Hive)
        → IsAt 0 log
        → Runs (Inside 0) Nowhere Calm (hivex_visit ic (xml_visitor xml) visitor_size skip log h)
    unfolding hivex_visit visit_node
    hivex_visit-Runs ic log h at = by_memory (h.grants (1 + h.size / 32))
      where
        by_memory :
            (b : Bool)
            → Runs (Inside 0) Nowhere Calm (
                if b
                then visit_node_loop ic
                    (copy_visitor visitor_size (xml_visitor xml))
                    skip
                    (8 * (1 + h.size / 32) + 1)
                    (root_or_zero (hivex_root h))
                    (start_walk log h)
                else refused enomem (start_walk log h))
        by_memory true =
            visit_node_loop-Runs Inside Calm ic (copy_visitor visitor_size (xml_visitor xml)) skip
              xml-Nests _ 0 _ (start_walk log h) (0, omega arith, λ off. refl, at)
        by_memory false = on_refused
