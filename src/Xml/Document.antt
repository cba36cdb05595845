-- ===== src/Xml/Document.antt =====
-- Where a document is after some calls of libxml2: the elements that are open, and whether an
-- attribute may follow. A call that does not fit there has no next place.
pub mod Actions
pub mod Nodes
pub mod Values
use hivex.Base.{
  ℕ, ◌≡◌, Bool, true, false, ◌||◌, Option, none, some, List, [], ◌∷◌, ◌==◌, if◌then◌else◌,
}
use hivex.Xml.{
  Element, Attribute, Call, start_document, end_document, end_element, end_attribute, start_element,
  write_attribute, start_attribute, write_string, write_base64, Log,
}

-- In the start tag of an element, with the attributes that it has so far; in an attribute of it; or
-- in its contents.
pub data Phase : Type 0 where
  in_tag in_attribute : List Attribute → Phase
  in_content : Phase

-- The innermost open element, and those around it.
pub data Place : Type 0 where
  fresh prolog epilog ended : Place
  inside : Element → List Element → Phase → Place

abbrev number_of : Attribute → ℕ
number_of Attribute.name = 0
number_of Attribute.root = 1
number_of Attribute.type = 2
number_of Attribute.encoding = 3
number_of Attribute.key = 4
number_of Attribute.default = 5
number_of Attribute.value = 6

abbrev has_attribute : Attribute → List Attribute → Bool
has_attribute a [] = false
has_attribute a (b ∷ bs) = number_of a == number_of b || has_attribute a bs

-- An element ends.
abbrev leave : List Element → Place
leave [] = epilog
leave (e ∷ es) = inside e es in_content

abbrev unless {ℓ} : {A : Type ℓ} → Bool → A → Option A
unless b a = if b then none else some a

-- A document has one root element, in which all others are nested; an attribute stands in the start
-- tag of its element, and not twice.
abbrev pub step : Call → Place → Option Place
step start_document fresh = some prolog
step end_document epilog = some ended
step (start_element e) prolog = some (inside e [] (in_tag []))
step (start_element e) (inside d ds (in_tag attrs)) = some (inside e (d ∷ ds) (in_tag []))
step (start_element e) (inside d ds in_content) = some (inside e (d ∷ ds) (in_tag []))
step end_element (inside d ds (in_tag attrs)) = some (leave ds)
step end_element (inside d ds in_content) = some (leave ds)
step (write_attribute a s) (inside d ds (in_tag attrs)) =
    unless (has_attribute a attrs) (inside d ds (in_tag (a ∷ attrs)))
step (start_attribute a) (inside d ds (in_tag attrs)) =
    unless (has_attribute a attrs) (inside d ds (in_attribute (a ∷ attrs)))
step end_attribute (inside d ds (in_attribute attrs)) = some (inside d ds (in_tag attrs))
step (write_string s) (inside d ds (in_attribute attrs)) = some (inside d ds (in_attribute attrs))
step (write_string s) (inside d ds (in_tag attrs)) = some (inside d ds in_content)
step (write_string s) (inside d ds in_content) = some (inside d ds in_content)
step (write_base64 s) (inside d ds (in_attribute attrs)) = some (inside d ds (in_attribute attrs))
step (write_base64 s) (inside d ds (in_tag attrs)) = some (inside d ds in_content)
step (write_base64 s) (inside d ds in_content) = some (inside d ds in_content)
step _ _ = none

abbrev and_then : Option Place → Call → Option Place
and_then none c = none
and_then (some p) c = step c p

-- The place after the calls, of which the last one comes first; none if one of them did not fit.
unfoldable pub place : Log → Option Place
place [] = some fresh
place (c ∷ calls) = and_then (place calls) c

-- Not in the midst of an attribute.
abbrev pub Free : Phase → Type 0
Free (in_tag attrs) = Unit {0}
Free (in_attribute attrs) = ⊥
Free in_content = Unit {0}

-- The calls have the element `e` open, inside of `es`.
abbrev pub IsIn : Element → List Element → Log → Type 0
IsIn e es log = (ph : Phase) × Free ph × (place log ≡ some (inside e es ph))
