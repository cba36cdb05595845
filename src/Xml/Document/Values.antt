-- ===== src/Xml/Document/Values.antt =====
-- Each callback of a value writes one whole element, and none calls `abort` for the types that it
-- is for.
use hivex.Base.{
  ℕ, ◌≡◌, ◌≢◌, refl, arith, Bool, true, false, ◌||◌, Option, none, some, List, [], ◌∷◌, ◌==◌, ltb,
  if◌then◌else◌,
}
use hivex.HiveType
use hivex.CString.{c_string}
use hivex.Visit.{ValueInfo}
use hivex.Visit.Rule.{is_text, IsOther}
use hivex.Xml.{
  Element, Attribute, Call, end_element, end_attribute, start_element, write_attribute,
  start_attribute, write_string, write_base64, Writer, Log, Action, skip, ◌>>◌, base64, string_type,
  invalid_type, other_type,
}
use hivex.Xml.Callbacks.{
  emit, text_element, key_attribute, encoding_attribute, start_value, end_value, value_attribute,
  typed_value, value_string, string_elements, value_multiple_strings, value_string_invalid_utf16,
  value_number, value_binary, bytes_attribute, value_none, value_other,
}
use hivex.Xml.Document.{in_tag, in_attribute, in_content, inside, step, IsIn, has_attribute}
use hivex.Xml.Document.Actions.{Leads, At, weaken-Writes, skip-Leads, then-Leads, emit-Leads}

module _ (xml : Writer) (e : Element) (es : List Element) where
  -- An element of its own, from the contents or the start tag of `e`.
  pub open-Leads :
      (d : Element)
      → Leads (IsIn e es) (At (inside d (e ∷ es) (in_tag []))) (emit xml (start_element d))
  open-Leads d log h (in_tag a, free, at) =
      emit-Leads xml _ (inside e es (in_tag a)) _ refl log h at
  open-Leads d log h (in_attribute a, free, at) = absurd free
  open-Leads d log h (in_content, free, at) =
      emit-Leads xml _ (inside e es in_content) _ refl log h at

  -- The end of it.
  pub close-Leads : (d : Element) → Leads (IsIn d (e ∷ es)) (IsIn e es) (emit xml end_element)
  close-Leads d log h (in_tag a, free, at) =
      weaken-Writes (emit-Leads xml _ (inside d (e ∷ es) (in_tag a)) _ refl log h at)
        λ l p. (in_content, tt, p)
  close-Leads d log h (in_attribute a, free, at) = absurd free
  close-Leads d log h (in_content, free, at) =
      weaken-Writes (emit-Leads xml _ (inside d (e ∷ es) in_content) _ refl log h at)
        λ l p. (in_content, tt, p)

  abbrev InTag : List Attribute → Log → Type 0
  InTag attrs = At (inside Element.value (e ∷ es) (in_tag attrs))

  -- In the start tag of a value that has no attribute `value` yet.
  abbrev Started : Log → Type 0
  Started log =
      (attrs : List Attribute) × (has_attribute Attribute.value attrs ≡ false) × InTag attrs log

  attribute-Leads :
      (a : Attribute) (s : List ℕ) (attrs : List Attribute)
      → has_attribute a attrs ≡ false
      → Leads (InTag attrs) (InTag (a ∷ attrs)) (emit xml (write_attribute a s))
  attribute-Leads a s attrs fresh =
      emit-Leads xml (write_attribute a s) (inside Element.value (e ∷ es) (in_tag attrs)) _
        (rw fresh refl)

  key-Leads :
      (k : List ℕ) (attrs : List Attribute)
      → has_attribute Attribute.key attrs ≡ false
      → has_attribute Attribute.default attrs ≡ false
      → has_attribute Attribute.value attrs ≡ false
      → Leads (InTag attrs) Started (key_attribute xml k)
  unfolding key_attribute
  key-Leads [] attrs p q r log h at =
      weaken-Writes (attribute-Leads Attribute.default _ attrs q log h at) λ l a. (_, r, a)
  key-Leads (c ∷ cs) attrs p q r log h at =
      weaken-Writes (attribute-Leads Attribute.key _ attrs p log h at) λ l a. (_, r, a)

  start_value-Leads :
      (key type : List ℕ) (encoding : Option (List ℕ))
      → Leads (IsIn e es) Started (start_value xml key type encoding)
  unfolding start_value encoding_attribute
  start_value-Leads key type none = then-Leads (open-Leads Element.value) (
      then-Leads (attribute-Leads Attribute.type type [] refl) (
        then-Leads (skip-Leads λ l a. a)
          (key-Leads (c_string key) (Attribute.type ∷ []) refl refl refl)))
  start_value-Leads key type (some encoding) = then-Leads (open-Leads Element.value) (
      then-Leads (attribute-Leads Attribute.type type [] refl) (
        then-Leads (attribute-Leads Attribute.encoding encoding (Attribute.type ∷ []) refl)
          (key-Leads (c_string key) (Attribute.encoding ∷ Attribute.type ∷ []) refl refl refl)))

  abbrev InValue : Log → Type 0
  InValue = IsIn Element.value (e ∷ es)

  start_value-InValue : (log : Log) → Started log → InValue log
  start_value-InValue log (attrs, fresh, at) = (in_tag attrs, tt, at)

  end_value-Leads : Leads InValue (IsIn e es) (end_value xml)
  unfolding end_value
  end_value-Leads = close-Leads Element.value

  -- Contents that may stand in an attribute.
  value_attribute-Leads :
      (c : Call)
      → ((attrs : List Attribute)
          → step c (inside Element.value (e ∷ es) (in_attribute attrs))
            ≡ some (inside Element.value (e ∷ es) (in_attribute attrs)))
      → Leads Started InValue (value_attribute xml c)
  unfolding value_attribute
  value_attribute-Leads c fits log h (attrs, fresh, at) =
      then-Leads opened (then-Leads filled closed) log h at
    where
      opened :
          Leads
            (InTag attrs)
            (At (inside Element.value (e ∷ es) (in_attribute (Attribute.value ∷ attrs))))
            (emit xml (start_attribute Attribute.value))
      opened =
          emit-Leads xml (start_attribute Attribute.value)
            (inside Element.value (e ∷ es) (in_tag attrs)) _ (rw fresh refl)

      filled :
          Leads
            (At (inside Element.value (e ∷ es) (in_attribute (Attribute.value ∷ attrs))))
            (At (inside Element.value (e ∷ es) (in_attribute (Attribute.value ∷ attrs))))
            (emit xml c)
      filled = emit-Leads xml c _ _ (fits (Attribute.value ∷ attrs))

      closed :
          Leads
            (At (inside Element.value (e ∷ es) (in_attribute (Attribute.value ∷ attrs))))
            InValue
            (emit xml end_attribute)
      closed l g p =
          weaken-Writes (emit-Leads xml end_attribute _ _ refl l g p) λ l' a. (in_tag _, tt, a)

  -- A whole value.
  value-Leads :
      (key type : List ℕ) (encoding : Option (List ℕ)) (content : Action)
      → Leads Started InValue content
      → Leads (IsIn e es) (IsIn e es) (do start_value xml key type encoding; content; end_value xml)
  value-Leads key type encoding content c =
      then-Leads (start_value-Leads key type encoding) (then-Leads c end_value-Leads)

  typed_value-Leads :
      (o : Option (List ℕ)) (i : ValueInfo) (encoding : Option (List ℕ)) (content : Action)
      → o ≢ none
      → Leads Started InValue content
      → Leads (IsIn e es) (IsIn e es) (typed_value xml o i encoding content)
  unfolding typed_value
  typed_value-Leads none i encoding content known c = absurd (known refl)
  typed_value-Leads (some type) i encoding content known c =
      value-Leads i.key type encoding content c

  bytes_attribute-Leads :
      (i : ValueInfo) (v : List ℕ) → Leads Started InValue (bytes_attribute xml i v)
  unfolding bytes_attribute
  bytes_attribute-Leads i v = go (ltb 0 i.len)
    where
      go :
          (b : Bool)
          → Leads Started InValue (if b then value_attribute xml (write_base64 (some v)) else skip)
      go true = value_attribute-Leads (write_base64 (some v)) λ attrs. refl
      go false = skip-Leads start_value-InValue

-- The contents of an element, and further elements in it.
module _ (xml : Writer) (e : Element) (es : List Element) where
  write_string-Leads : (s : List ℕ) → Leads (IsIn e es) (IsIn e es) (emit xml (write_string s))
  write_string-Leads s log h (in_tag a, free, at) =
      weaken-Writes (emit-Leads xml (write_string s) (inside e es (in_tag a)) _ refl log h at)
        λ l p. (in_content, tt, p)
  write_string-Leads s log h (in_attribute a, free, at) = absurd free
  write_string-Leads s log h (in_content, free, at) =
      weaken-Writes (emit-Leads xml (write_string s) (inside e es in_content) _ refl log h at)
        λ l p. (in_content, tt, p)

  opened-IsIn :
      (d : Element) (log : Log) → At (inside d (e ∷ es) (in_tag [])) log → IsIn d (e ∷ es) log
  opened-IsIn d log at = (in_tag [], tt, at)

-- An element that holds a text.
module _ (xml : Writer) (e : Element) (es : List Element) where
  pub text_element-Leads :
      (d : Element) (s : List ℕ) → Leads (IsIn e es) (IsIn e es) (text_element xml d s)
  unfolding text_element
  text_element-Leads d s =
      then-Leads (λ l h p. weaken-Writes (open-Leads xml e es d l h p) (opened-IsIn xml e es d))
        (then-Leads (write_string-Leads xml d (e ∷ es) s) (close-Leads xml e es d))

  string_elements-Leads :
      (argv : List (List ℕ)) → Leads (IsIn e es) (IsIn e es) (string_elements xml argv)
  unfolding string_elements
  string_elements-Leads [] = skip-Leads λ l p. p
  string_elements-Leads (s ∷ argv) =
      then-Leads (text_element-Leads Element.string (c_string s)) (string_elements-Leads argv)

-- What each callback needs to know of the type.
string_type-known : (t : ℕ) → is_text t ≡ true → string_type t ≢ none
unfolding string_type
string_type-known t k e = ground arith

invalid_type-known :
    (t : ℕ) → (is_text t || t == HiveType.multiple_strings) ≡ true → invalid_type t ≢ none
unfolding invalid_type
invalid_type-known t k e = ground arith

other_type-known : (t : ℕ) → IsOther t → other_type t ≢ none
unfolding other_type
other_type-known t k e = ground arith

-- Each callback, called in the element `e`, leaves the document in `e` again.
module _ (xml : Writer) (e : Element) (es : List Element) where
  abbrev Within : Action → Type 0
  Within = Leads (IsIn e es) (IsIn e es)

  pub value_string-Within :
      (i : ValueInfo) (s : List ℕ) → is_text i.type ≡ true → Within (value_string xml i s)
  unfolding value_string
  value_string-Within i s k =
      typed_value-Leads xml e es (string_type i.type) i none _ (string_type-known i.type k)
        (value_attribute-Leads xml e es (write_string (c_string s)) λ attrs. refl)

  pub value_multiple_strings-Within :
      (i : ValueInfo) (argv : List (List ℕ)) → Within (value_multiple_strings xml i argv)
  unfolding value_multiple_strings
  value_multiple_strings-Within i argv = value-Leads xml e es i.key _ none _ λ log h p.
      string_elements-Leads xml Element.value (e ∷ es) argv log h
        (start_value-InValue xml e es log p)

  pub value_string_invalid_utf16-Within :
      (i : ValueInfo) (s : Option (List ℕ))
      → (is_text i.type || i.type == HiveType.multiple_strings) ≡ true
      → Within (value_string_invalid_utf16 xml i s)
  unfolding value_string_invalid_utf16
  value_string_invalid_utf16-Within i s k =
      typed_value-Leads xml e es (invalid_type i.type) i (some base64) _
        (invalid_type-known i.type k)
        (value_attribute-Leads xml e es (write_base64 s) λ attrs. refl)

  pub value_number-Within :
      (type : List ℕ) (bits : ℕ) (i : ValueInfo) (v : ℕ) → Within (value_number xml type bits i v)
  unfolding value_number
  value_number-Within type bits i v =
      value-Leads xml e es i.key type none _ λ log h (attrs, fresh, at).
        weaken-Writes (attribute-Leads xml e es Attribute.value _ attrs fresh log h at)
          λ l p. (in_tag _, tt, p)

  pub value_binary-Within : (i : ValueInfo) (v : List ℕ) → Within (value_binary xml i v)
  unfolding value_binary
  value_binary-Within i v =
      value-Leads xml e es i.key _ (some base64) _
        (value_attribute-Leads xml e es (write_base64 (some v)) λ attrs. refl)

  pub value_none-Within : (i : ValueInfo) (v : List ℕ) → Within (value_none xml i v)
  unfolding value_none
  value_none-Within i v =
      value-Leads xml e es i.key _ (some base64) _ (bytes_attribute-Leads xml e es i v)

  pub value_other-Within :
      (i : ValueInfo) (v : List ℕ) → IsOther i.type → Within (value_other xml i v)
  unfolding value_other
  value_other-Within i v k =
      typed_value-Leads xml e es (other_type i.type) i (some base64) _ (other_type-known i.type k)
        (bytes_attribute-Leads xml e es i v)
