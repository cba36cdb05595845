-- ===== src/Xml/Document/Actions.antt =====
-- Rules for actions that move a document from one place to another.
use hivex.Base.{◌≡◌, ◌≢◌, ap, ◌∙◌, Bool, true, false, some, ◌∷◌, if◌then◌else◌}
use hivex.Hive.{Hive, Trap, abort, exit}
use hivex.Visit.{Reply, continue, refuse, die}
use hivex.Xml.{Call, Writer, Log, Action, skip, stop, ◌>>◌}
use hivex.Xml.Callbacks.{emit}
use hivex.Xml.Document.{Place, step, and_then, place}

-- A callback that goes on leaves the hive alone and a log with `Q`; it does not return -1, and if it
-- does not return, that is not by `abort`.
pub data Writes (Q : Log → Type 0) (h : Hive) : Reply Log → Type 0 where
  goes_on : {log : Log} → Q log → Writes Q h (continue log h)
  ends : {t : Trap} → t ≢ abort → Writes Q h (die t)

-- From every log with `P`.
abbrev pub Leads : (Log → Type 0) → (Log → Type 0) → Action → Type 0
Leads P Q a = (log : Log) (h : Hive) → P log → Writes Q h (a log h)

abbrev pub At : Place → Log → Type 0
At p log = place log ≡ some p

pub exit≢abort : exit ≢ abort
exit≢abort e = cc

pub stop-Leads : (P Q : Log → Type 0) (t : Trap) → t ≢ abort → Leads P Q (stop t)
stop-Leads P Q t e log h p = ends e

bind_reply :
    {Q R : Log → Type 0} (b : Action) {h : Hive} {r : Reply Log}
    → Writes Q h r
    → Leads Q R b
    → Writes R h (elim r [
      | continue log' h' ↦ b log' h'
      | refuse e log' h' ↦ refuse e log' h'
      | die t ↦ die t
    ])
bind_reply b (goes_on q) next = next _ _ q
bind_reply b (ends e) next = ends e

module _ {P Q : Log → Type 0} where
  pub weaken-Writes :
      {h : Hive} {r : Reply Log} → Writes P h r → ((log : Log) → P log → Q log) → Writes Q h r
  weaken-Writes (goes_on p) f = goes_on (f _ p)
  weaken-Writes (ends e) f = ends e

  pub skip-Leads : ((log : Log) → P log → Q log) → Leads P Q skip
  skip-Leads f log h p = goes_on (f log p)

  pub then-Leads :
      {R : Log → Type 0} {a b : Action} → Leads P Q a → Leads Q R b → Leads P R (a >> b)
  unfolding ◌>>◌
  then-Leads {R} {a} {b} first next log h p = bind_reply b (first log h p) next

module _ (xml : Writer) where
  place-call : (c : Call) (log : Log) {p : Place} → At p log → place (c ∷ log) ≡ step c p
  unfolding place
  place-call c log e = ap (λ o. and_then o c) e

  -- A call that fits.
  pub emit-Leads : (c : Call) (p q : Place) → step c p ≡ some q → Leads (At p) (At q) (emit xml c)
  unfolding emit
  emit-Leads c p q fits log h at = go (xml.accepts log c)
    where
      go : (b : Bool) → Writes (At q) h (if b then continue (c ∷ log) h else die exit)
      go true = goes_on (place-call c log at ∙ fits)
      go false = ends exit≢abort
