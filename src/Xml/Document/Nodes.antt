-- ===== src/Xml/Document/Nodes.antt =====
-- The callbacks for the start and the end of a node open and close one element.
use hivex.Base.{ℕ, refl, arith, Bool, true, false, List, [], ◌∷◌, ◌==◌, if◌then◌else◌}
use hivex.Hive.{abort, Result, ok, err, trap}
use hivex.Hive.Reader.Ends.{Avoids}
use hivex.CString.{c_string}
use hivex.Node.{hivex_root, node_timestamp}
use hivex.Node.Asserts.{node_timestamp-Avoids}
use hivex.Visit.Node.{root_or_zero}
use hivex.Xml.{
  Element, Attribute, write_attribute, no_time, no_text, text, TimeText, Writer, skip, one,
  unix_time,
}
use hivex.Xml.Callbacks.{
  emit, write_time, write_mtime, mtime_of, time_of_node, root_attribute, node_start, node_end,
}
use hivex.Xml.Document.{in_tag, inside, IsIn}
use hivex.Xml.Document.Actions.{
  Writes, goes_on, Leads, At, weaken-Writes, skip-Leads, stop-Leads, then-Leads, emit-Leads,
  exit≢abort,
}
use hivex.Xml.Document.Values.{open-Leads, close-Leads, text_element-Leads}

module _ (xml : Writer) (e : Element) (es : List Element) where
  write_time-Leads : (t : TimeText) → Leads (IsIn e es) (IsIn e es) (write_time xml t)
  unfolding write_time
  write_time-Leads no_time = skip-Leads λ l p. p
  write_time-Leads no_text = stop-Leads _ _ _ exit≢abort
  write_time-Leads (text timebuf) = text_element-Leads xml e es Element.mtime timebuf

  write_mtime-Leads : (ticks : ℕ) → Leads (IsIn e es) (IsIn e es) (write_mtime xml ticks)
  unfolding write_mtime
  write_mtime-Leads ticks = go (ticks == 0)
    where
      go :
          (b : Bool)
          → Leads
              (IsIn e es)
              (IsIn e es)
              (if b then skip else write_time xml (xml.utc (unix_time ticks)))
      go true = skip-Leads λ l p. p
      go false = write_time-Leads _

  pub mtime_of-Leads :
      (r : Result ℕ) → Avoids abort r → Leads (IsIn e es) (IsIn e es) (mtime_of xml r)
  unfolding mtime_of
  mtime_of-Leads (ok ticks) calm = write_mtime-Leads ticks
  mtime_of-Leads (err x) calm = skip-Leads λ l p. p
  mtime_of-Leads (trap t) calm = stop-Leads _ _ t λ q. calm (ground arith)

  time_of_node-Leads : (n : ℕ) → Leads (IsIn e es) (IsIn e es) (time_of_node xml n)
  unfolding time_of_node
  time_of_node-Leads n log h = mtime_of-Leads (node_timestamp n h) (node_timestamp-Avoids h n) log h

module _ (xml : Writer) (e : Element) (es : List Element) where
  -- A start tag that has the name already.
  root_attribute-Leads :
      (n : ℕ)
      → Leads
          (At (inside Element.node (e ∷ es) (in_tag (Attribute.name ∷ []))))
          (IsIn Element.node (e ∷ es))
          (root_attribute xml n)
  unfolding root_attribute
  root_attribute-Leads n log h at = go (n == root_or_zero (hivex_root h))
    where
      go :
          (b : Bool)
          → Writes
              (IsIn Element.node (e ∷ es))
              h
              ((if b then emit xml (write_attribute Attribute.root one) else skip) log h)
      go true =
          weaken-Writes
            (emit-Leads xml _ (inside Element.node (e ∷ es) (in_tag (Attribute.name ∷ []))) _ refl
              log h at)
            λ l p. (in_tag _, tt, p)
      go false = goes_on (in_tag (Attribute.name ∷ []), tt, at)

  pub node_start-Leads :
      (n : ℕ) (name : List ℕ)
      → Leads (IsIn e es) (IsIn Element.node (e ∷ es)) (node_start xml n name)
  unfolding node_start
  node_start-Leads n name = then-Leads (open-Leads xml e es Element.node) (
      then-Leads
        (emit-Leads xml (write_attribute Attribute.name (c_string name))
          (inside Element.node (e ∷ es) (in_tag [])) _ refl)
        (then-Leads (root_attribute-Leads n) (time_of_node-Leads xml Element.node (e ∷ es) n)))

  pub node_end-Leads :
      (n : ℕ) (name : List ℕ) → Leads (IsIn Element.node (e ∷ es)) (IsIn e es) (node_end xml n name)
  unfolding node_end
  node_end-Leads n name = close-Leads xml e es Element.node
