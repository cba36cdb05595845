-- ===== src/Xml.antt =====
-- The program xml/hivexml.c: the calls of libxml2 that it makes, and its callbacks for the visitor.
--
-- libxml2 and the functions for time of the C library are parameters. The options on the command
-- line are arguments; memory for the text of a time is always granted.
pub mod Callbacks
pub mod Document
pub mod Main
pub mod Nesting
pub mod Sound
use hivex.Base.{
  ℕ, ◌+◌, ◌-◌, ◌/◌, Bool, true, false, ◌||◌, Option, none, some, List, [], ◌∷◌, ◌==◌, leb, ltb,
  if◌then◌else◌,
}
use hivex.Hive.{Hive, Trap, abort, exit, Result, ok, err, trap, Read}
use hivex.HiveType
use hivex.CString.{c_string}
use hivex.Node.{hivex_root, node_timestamp}
use hivex.Visit.{Reply, continue, refuse, die, Callback, ValueInfo, Visitor}
use hivex.Visit.Node.{root_or_zero}
use hivex.Shell.{ℤ, pos, negsuc}
use hivex.Shell.Text.{signed_decimal}

-- The names of elements and attributes.
pub data Element : Type 0 where
  hive mtime node value string : Element

pub data Attribute : Type 0 where
  name root type encoding key default value : Attribute

-- The calls of libxml2's writer. The data for Base64 can be a null pointer.
pub data Call : Type 0 where
  start_document end_document end_element end_attribute : Call
  start_element : Element → Call
  write_attribute : Attribute → List ℕ → Call
  start_attribute : Attribute → Call
  write_string : List ℕ → Call
  write_base64 : Option (List ℕ) → Call

-- What `gmtime` and `strftime` make of a `time_t`: either can fail.
pub data TimeText : Type 0 where
  no_time no_text : TimeText
  text : List ℕ → TimeText

-- `accepts calls c`: after these calls, the last one first, the call `c` does not return -1.
pub record Writer : Type 0 where
  pub accepts : List Call → Call → Bool
  pub utc : ℤ → TimeText

-- The data of a walk are the calls so far, the last one first.
abbrev pub Log : Type 0
Log = List Call

abbrev pub Action : Type 0
Action = Callback Log

abbrev pub skip : Action
skip log h = continue log h

abbrev pub stop : Trap → Action
stop t log h = die t

infixl 5 ◌>>◌
unfoldable pub ◌>>◌ : Action → Action → Action
◌>>◌ a b log h = elim (a log h) [
  | continue log' h' ↦ b log' h'
  | refuse e log' h' ↦ refuse e log' h'
  | die t ↦ die t
]

-- `windows_ticks / WINDOWS_TICK - SEC_TO_UNIX_EPOCH`, for ticks that are not negative.
unfoldable pub unix_time : ℕ → ℤ
unix_time ticks =
    let s = ticks / 10000000 in
    if leb 11644473600 s then pos (s - 11644473600) else negsuc (11644473600 - s - 1)

-- The texts of types and numbers.
abbrev one : List ℕ
one = b'1' ∷ []

abbrev pub base64 : List ℕ
base64 = b'b' ∷ b'a' ∷ b's' ∷ b'e' ∷ b'6' ∷ b'4' ∷ []

abbrev unknown : List ℕ
unknown = b'u' ∷ b'n' ∷ b'k' ∷ b'n' ∷ b'o' ∷ b'w' ∷ b'n' ∷ []

abbrev text_string : List ℕ
text_string = b's' ∷ b't' ∷ b'r' ∷ b'i' ∷ b'n' ∷ b'g' ∷ []

abbrev text_expand : List ℕ
text_expand = b'e' ∷ b'x' ∷ b'p' ∷ b'a' ∷ b'n' ∷ b'd' ∷ []

abbrev text_link : List ℕ
text_link = b'l' ∷ b'i' ∷ b'n' ∷ b'k' ∷ []

abbrev bad_ : List ℕ → List ℕ
bad_ s = b'b' ∷ b'a' ∷ b'd' ∷ b'-' ∷ s

abbrev string_list : List ℕ
string_list = b's' ∷ b't' ∷ b'r' ∷ b'i' ∷ b'n' ∷ b'g' ∷ b'-' ∷ b'l' ∷ b'i' ∷ b's' ∷ b't' ∷ []

abbrev resource_ : List ℕ → List ℕ
resource_ s = b'r' ∷ b'e' ∷ b's' ∷ b'o' ∷ b'u' ∷ b'r' ∷ b'c' ∷ b'e' ∷ b'-' ∷ s

abbrev description : List ℕ
description = b'd' ∷ b'e' ∷ b's' ∷ b'c' ∷ b'r' ∷ b'i' ∷ b'p' ∷ b't' ∷ b'i' ∷ b'o' ∷ b'n' ∷ []

abbrev requirements : List ℕ
requirements =
    b'r' ∷ b'e' ∷ b'q' ∷ b'u' ∷ b'i' ∷ b'r' ∷ b'e' ∷ b'm' ∷ b'e' ∷ b'n' ∷ b't' ∷ b's' ∷ []

-- The numbers of `hive_type` but for the strings, of which `value_string` calls `abort`.
abbrev is_number : ℕ → Bool
is_number t = t == HiveType.dword || t == HiveType.dword_be || t == HiveType.qword

abbrev is_resource : ℕ → Bool
is_resource t =
    t == HiveType.resource_list
    || t == HiveType.full_resource_description
    || t == HiveType.resource_requirements_list

abbrev is_bytes : ℕ → Bool
is_bytes t = t == HiveType.none || t == HiveType.binary

-- The type that `value_string` writes, `none` for `abort ()`.
unfoldable pub string_type : ℕ → Option (List ℕ)
string_type t =
    if t == HiveType.string
    then some text_string
    else if t == HiveType.expand_string
    then some text_expand
    else if t == HiveType.link
    then some text_link
    else if is_bytes t || is_number t || t == HiveType.multiple_strings || is_resource t
    then none
    else some unknown

-- The same for `value_string_invalid_utf16`.
unfoldable pub invalid_type : ℕ → Option (List ℕ)
invalid_type t =
    if t == HiveType.string
    then some (bad_ text_string)
    else if t == HiveType.expand_string
    then some (bad_ text_expand)
    else if t == HiveType.link
    then some (bad_ text_link)
    else if t == HiveType.multiple_strings
    then some (bad_ string_list)
    else if is_bytes t || is_number t || is_resource t
    then none
    else some unknown

-- The same for `value_other`.
unfoldable pub other_type : ℕ → Option (List ℕ)
other_type t =
    if is_bytes t
      || is_number t
      || t == HiveType.string
      || t == HiveType.expand_string
      || t == HiveType.link
      || t == HiveType.multiple_strings
    then none
    else if t == HiveType.resource_list
    then some (resource_ (b'l' ∷ b'i' ∷ b's' ∷ b't' ∷ []))
    else if t == HiveType.full_resource_description
    then some (resource_ description)
    else if t == HiveType.resource_requirements_list
    then some (resource_ requirements)
    else some unknown
