-- ===== src/Xml/Main.antt =====
-- `main` of xml/hivexml.c.
use hivex.Base.{Bool, []}
use hivex.Hive.{Hive, Trap, exit, Result, ok, err, trap}
use hivex.Node.{hivex_last_modified}
use hivex.Strings.{Iconv}
use hivex.Visit.{Reply, continue, refuse, die, Step, next, bad, refused, crashed, died}
use hivex.Visit.Node.{visitor_size, hivex_visit}
use hivex.Xml.{
  Element, start_document, end_document, end_element, start_element, Writer, Log, Action, ◌>>◌,
}
use hivex.Xml.Callbacks.{emit, mtime_of, xml_visitor}

-- How the program ends: with success and the calls that it has made, the last one first, or not.
pub data Ending : Type 0 where
  exit_success : Log → Ending
  ends_by : Trap → Ending

module _ (xml : Writer) (ic : Iconv) (skip_bad : Bool) where
  unfoldable pub before_visit : Hive → Action
  before_visit opened = do
    emit xml start_document
    emit xml (start_element Element.hive)
    mtime_of xml (hivex_last_modified opened)

  -- Closing the hive is not modelled: it succeeds.
  unfoldable pub after_visit : Action
  after_visit = do emit xml end_element; emit xml end_document

  unfoldable pub finish : Reply Log → Ending
  finish (continue log h) = exit_success log
  finish (refuse e log h) = ends_by exit
  finish (die t) = ends_by t

  unfoldable pub after_walk : Step Log (Unit {0}) → Ending
  after_walk (next u w) = finish (after_visit w.opaque w.hive)
  after_walk (bad e w) = ends_by exit
  after_walk (refused e w) = ends_by exit
  after_walk (crashed t) = ends_by t
  after_walk (died t) = ends_by t

  unfoldable pub walk : Reply Log → Ending
  walk (continue log h) = after_walk (hivex_visit ic (xml_visitor xml) visitor_size skip_bad log h)
  walk (refuse e log h) = ends_by exit
  walk (die t) = ends_by t

  -- From the result of `hivex_open` on.
  unfoldable pub hivexml : Result Hive → Ending
  hivexml (ok h) = walk (before_visit h [] h)
  hivexml (err e) = ends_by exit
  hivexml (trap t) = ends_by t
