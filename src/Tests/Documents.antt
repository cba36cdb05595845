-- ===== src/Tests/Documents.antt =====
-- The theorems about hivexml, at the small hive, and a run of it.
use hivex.Base.{refl, true, false, [], ◌∷◌}
use hivex.Hive.{ok}
use hivex.Visit.Node.{visitor_size, hivex_visit}
use hivex.Visit.Rule.Nested.{Runs, Nowhere}
use hivex.Xml.{Element, start_document, start_element, text, Writer, Log}
use hivex.Xml.Callbacks.{xml_visitor}
use hivex.Xml.Main.{hivexml}
use hivex.Xml.Document.{in_tag, place}
use hivex.Xml.Nesting.{IsAt, Inside, Calm, hivex_visit-Runs}
use hivex.Xml.Sound.{IsFinished, hivexml-IsFinished}
use hivex.Tests.{sample_hive}
use hivex.Tests.Deleting.{plain}

-- Every call succeeds, and every time has the same text.
abbrev writing : Writer
writing = record { accepts = λ calls c. true; utc = λ t. text (b'T' ∷ []) }

hivexml-IsFinished_example : IsFinished (hivexml writing plain false (ok sample_hive))
hivexml-IsFinished_example = hivexml-IsFinished writing plain (ok sample_hive)

abbrev begun : Log
begun = start_element Element.hive ∷ start_document ∷ []

begun-IsAt : IsAt 0 begun
begun-IsAt = (in_tag [], tt, unfold place in refl)

hivex_visit-Runs_example :
    Runs
      (Inside true 0)
      Nowhere
      Calm
      (hivex_visit plain (xml_visitor writing) visitor_size true begun sample_hive)
hivex_visit-Runs_example = hivex_visit-Runs true writing plain begun sample_hive begun-IsAt
