-- ===== src/Xml/Callbacks.antt =====
-- The callbacks of xml/hivexml.c.
use hivex.Base.{ℕ, Option, none, some, List, [], ◌∷◌, ◌==◌, ltb, if◌then◌else◌}
use hivex.Hive.{abort, exit, Result, ok, err, trap}
use hivex.CString.{c_string}
use hivex.Node.{hivex_root, node_timestamp}
use hivex.Visit.{continue, die, ValueInfo, Visitor}
use hivex.Visit.Node.{root_or_zero}
use hivex.Shell.Text.{signed_decimal}
use hivex.Xml.{
  Element, Attribute, Call, end_element, end_attribute, start_element, write_attribute,
  start_attribute, write_string, write_base64, TimeText, no_time, no_text, text, Writer, Action,
  skip, stop, ◌>>◌, unix_time, one, base64, string_list, string_type, invalid_type, other_type,
}

module _ (xml : Writer) where
  -- `XML_CHECK`
  unfoldable pub emit : Call → Action
  emit c log h = if xml.accepts log c then continue (c ∷ log) h else die exit

  -- An element that holds a text.
  unfoldable pub text_element : Element → List ℕ → Action
  text_element e s = do emit (start_element e); emit (write_string s); emit end_element

  unfoldable pub write_time : TimeText → Action
  write_time no_time = skip
  write_time no_text = stop exit
  write_time (text timebuf) = text_element Element.mtime timebuf

  -- `filetime_to_8601`, and the element for its result, if it is not NULL.
  unfoldable pub write_mtime : ℕ → Action
  write_mtime ticks = if ticks == 0 then skip else write_time (xml.utc (unix_time ticks))

  -- A time that cannot be read, or is negative, is left out.
  unfoldable pub mtime_of : Result ℕ → Action
  mtime_of (ok ticks) = write_mtime ticks
  mtime_of (err e) = skip
  mtime_of (trap t) = stop t

  unfoldable pub time_of_node : ℕ → Action
  time_of_node n log h = mtime_of (node_timestamp n h) log h

  unfoldable pub root_attribute : ℕ → Action
  root_attribute n log h =
      (if n == root_or_zero (hivex_root h) then emit (write_attribute Attribute.root one) else skip)
        log h

  unfoldable pub node_start : ℕ → List ℕ → Action
  node_start n name = do
    emit (start_element Element.node)
    emit (write_attribute Attribute.name (c_string name))
    root_attribute n
    time_of_node n

  unfoldable pub node_end : ℕ → List ℕ → Action
  node_end n name = emit end_element

  unfoldable pub key_attribute : List ℕ → Action
  key_attribute [] = emit (write_attribute Attribute.default one)
  key_attribute (c ∷ cs) = emit (write_attribute Attribute.key (c ∷ cs))

  unfoldable pub encoding_attribute : Option (List ℕ) → Action
  encoding_attribute none = skip
  encoding_attribute (some encoding) = emit (write_attribute Attribute.encoding encoding)

  unfoldable pub start_value : List ℕ → List ℕ → Option (List ℕ) → Action
  start_value key type encoding = do
    emit (start_element Element.value)
    emit (write_attribute Attribute.type type)
    encoding_attribute encoding
    key_attribute (c_string key)

  unfoldable pub end_value : Action
  end_value = emit end_element

  -- The attribute `value`, in three calls.
  unfoldable pub value_attribute : Call → Action
  value_attribute content = do
    emit (start_attribute Attribute.value)
    emit content
    emit end_attribute

  -- A value with a type, unless the type makes the program call `abort`.
  unfoldable pub typed_value : Option (List ℕ) → ValueInfo → Option (List ℕ) → Action → Action
  typed_value none i encoding content = stop abort
  typed_value (some type) i encoding content = do
    start_value i.key type encoding
    content
    end_value

  unfoldable pub value_string : ValueInfo → List ℕ → Action
  value_string i str =
      typed_value (string_type i.type) i none (value_attribute (write_string (c_string str)))

  unfoldable pub string_elements : List (List ℕ) → Action
  string_elements [] = skip
  string_elements (s ∷ argv) = do text_element Element.string (c_string s); string_elements argv

  unfoldable pub value_multiple_strings : ValueInfo → List (List ℕ) → Action
  value_multiple_strings i argv = do
    start_value i.key string_list none
    string_elements argv
    end_value

  unfoldable pub value_string_invalid_utf16 : ValueInfo → Option (List ℕ) → Action
  value_string_invalid_utf16 i str =
      typed_value (invalid_type i.type) i (some base64) (value_attribute (write_base64 str))

  unfoldable pub value_number : List ℕ → ℕ → ValueInfo → ℕ → Action
  value_number type bits i v = do
    start_value i.key type none
    emit (write_attribute Attribute.value (signed_decimal bits v))
    end_value

  unfoldable pub value_dword : ValueInfo → ℕ → Action
  value_dword = value_number (b'i' ∷ b'n' ∷ b't' ∷ b'3' ∷ b'2' ∷ []) 32

  unfoldable pub value_qword : ValueInfo → ℕ → Action
  value_qword = value_number (b'i' ∷ b'n' ∷ b't' ∷ b'6' ∷ b'4' ∷ []) 64

  unfoldable pub value_binary : ValueInfo → List ℕ → Action
  value_binary i v = do
    start_value i.key (b'b' ∷ b'i' ∷ b'n' ∷ b'a' ∷ b'r' ∷ b'y' ∷ []) (some base64)
    value_attribute (write_base64 (some v))
    end_value

  -- `if (len > 0)`
  unfoldable pub bytes_attribute : ValueInfo → List ℕ → Action
  bytes_attribute i v = if ltb 0 i.len then value_attribute (write_base64 (some v)) else skip

  unfoldable pub value_none : ValueInfo → List ℕ → Action
  value_none i v = do
    start_value i.key (b'n' ∷ b'o' ∷ b'n' ∷ b'e' ∷ []) (some base64)
    bytes_attribute i v
    end_value

  unfoldable pub value_other : ValueInfo → List ℕ → Action
  value_other i v = typed_value (other_type i.type) i (some base64) (bytes_attribute i v)

  -- `visitor`
  abbrev pub xml_visitor : Visitor (List Call)
  xml_visitor = record {
    node_start = some node_start;
    node_end = some node_end;
    string_cb = some value_string;
    multiple_strings_cb = some value_multiple_strings;
    string_invalid_utf16_cb = some value_string_invalid_utf16;
    dword_cb = some value_dword;
    qword_cb = some value_qword;
    binary_cb = some value_binary;
    none_cb = some value_none;
    other_cb = some value_other;
    any_cb = none;
  }
