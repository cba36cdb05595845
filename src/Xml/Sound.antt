-- ===== src/Xml/Sound.antt =====
-- What the program xml/hivexml.c has written when it ends with success.
use hivex.Base.{zero, suc, ◌≡◌, refl, arith, false, some, []}
use hivex.Hive.{Hive, Trap, Result, ok, err, trap}
use hivex.Node.Asserts.{hivex_last_modified-Avoids}
use hivex.Strings.{Iconv}
use hivex.Visit.{Reply, Step, Walk}
use hivex.Visit.Rule.Nested.{Runs, on_next, on_bad, on_refused, on_crashed, on_died, Nowhere}
use hivex.Xml.{Element, start_document, end_document, end_element, start_element, Writer, Log}
use hivex.Xml.Callbacks.{emit}
use hivex.Xml.Main.{
  Ending, exit_success, ends_by, before_visit, after_visit, finish, after_walk, walk, hivexml,
}
use hivex.Xml.Document.{
  fresh, prolog, epilog, ended, inside, in_tag, in_attribute, in_content, place,
}
use hivex.Xml.Document.Actions.{
  Writes, goes_on, ends, Leads, At, weaken-Writes, then-Leads, emit-Leads,
}
use hivex.Xml.Document.Nodes.{mtime_of-Leads}
use hivex.Xml.Nesting.{IsAt, IsNested, Inside, Calm, hivex_visit-Runs}

-- After success the calls make up a whole document.
pub data IsFinished : Ending → Type 0 where
  whole : {log : Log} → place log ≡ some ended → IsFinished (exit_success log)
  partial : {t : Trap} → IsFinished (ends_by t)

module _ (xml : Writer) (ic : Iconv) where
  before_visit-Leads : (h : Hive) → Leads (At fresh) (IsAt 0) (before_visit xml ic false h)
  unfolding before_visit
  before_visit-Leads h = then-Leads (emit-Leads xml start_document fresh prolog refl) (
      then-Leads
        (λ l g p.
          weaken-Writes
            (emit-Leads xml (start_element Element.hive) prolog (inside Element.hive [] (in_tag []))
              refl l g p)
            λ l' at. (in_tag [], tt, at))
        (mtime_of-Leads xml Element.hive [] _ (hivex_last_modified-Avoids h)))

  end_of_hive : Leads (IsAt 0) (At epilog) (emit xml end_element)
  end_of_hive log h (in_tag a, free, at) =
      emit-Leads xml end_element (inside Element.hive [] (in_tag a)) epilog refl log h at
  end_of_hive log h (in_attribute a, free, at) = absurd free
  end_of_hive log h (in_content, free, at) =
      emit-Leads xml end_element (inside Element.hive [] in_content) epilog refl log h at

  after_visit-Leads : Leads (IsAt 0) (At ended) (after_visit xml ic false)
  unfolding after_visit
  after_visit-Leads = then-Leads end_of_hive (emit-Leads xml end_document epilog ended refl)

  finish-IsFinished :
      {h : Hive} {r : Reply Log} → Writes (At ended) h r → IsFinished (finish xml ic false r)
  unfolding finish
  finish-IsFinished (goes_on at) = whole at
  finish-IsFinished (ends calm) = partial

  end-IsAt : (w : Walk Log) → IsNested false 0 w.opaque → IsAt 0 w.opaque
  end-IsAt w (zero, deep, exact, at) = at
  end-IsAt w (suc n, deep, exact, at) = absurd (omega (arith, exact refl))

  after_walk-IsFinished :
      {r : Step Log (Unit {0})}
      → Runs (Inside false 0) Nowhere Calm r
      → IsFinished (after_walk xml ic false r)
  unfolding after_walk
  after_walk-IsFinished (on_next {w = w} i) =
      finish-IsFinished (after_visit-Leads w.opaque w.hive (end-IsAt w i))
  after_walk-IsFinished (on_bad b) = partial
  after_walk-IsFinished on_refused = partial
  after_walk-IsFinished on_crashed = partial
  after_walk-IsFinished (on_died d) = partial

  walk-IsFinished :
      {h : Hive} {r : Reply Log} → Writes (IsAt 0) h r → IsFinished (walk xml ic false r)
  unfolding walk
  walk-IsFinished (goes_on at) = after_walk-IsFinished (hivex_visit-Runs false xml ic _ _ at)
  walk-IsFinished (ends calm) = partial

  pub hivexml-IsFinished : (r : Result Hive) → IsFinished (hivexml xml ic false r)
  unfolding hivexml
  hivexml-IsFinished (ok h) = walk-IsFinished (before_visit-Leads h [] h nothing_yet)
    where
      nothing_yet : place [] ≡ some fresh
      nothing_yet = unfold place in refl
  hivexml-IsFinished (err e) = partial
  hivexml-IsFinished (trap t) = partial
