-- ===== src/Shell/Print.antt =====
-- What the command `lsval` of sh/hivexsh.c prints.
use hivex.Base.{ℕ, ◌^◌, Bool, true, false, ◌||◌, List, [], ◌∷◌, ◌++◌, ◌==◌, ◌-◌, if◌then◌else◌}
use hivex.Hive.{ok, err, trap, Read}
use hivex.Hive.Reader.{◌>>=◌, pure}
use hivex.HiveType
use hivex.CString.{c_string}
use hivex.Value.{value_type, value_value, value_dword, value_qword}
use hivex.Strings.{Iconv, value_string, value_multiple_strings}
use hivex.Shell.Text.{streq, hex_byte, digits, signed_decimal}

-- The result of a read whose error is not looked at, -1.
unfoldable pub or_value : ℕ → Read ℕ → Read ℕ
or_value minus_one r h = elim (r h) [ ok n ↦ ok n | err e ↦ ok minus_one | trap t ↦ trap t ]

abbrev is_text : ℕ → Bool
is_text t = t == HiveType.string || t == HiveType.expand_string || t == HiveType.link

abbrev is_dword : ℕ → Bool
is_dword t = t == HiveType.dword || t == HiveType.dword_be

-- One string on each line.
unfoldable pub puts_all : List (List ℕ) → List ℕ
puts_all [] = []
puts_all (s ∷ ss) = c_string s ++ (10 ∷ puts_all ss)

-- A value that has been asked for by its key.
unfoldable pub show_value : Iconv → ℕ → Read (List ℕ)
show_value ic value = do
  (t, len) ← value_type value
  if is_text t
      then (do s ← value_string ic value; pure (puts_all (s ∷ [])))
      else if is_dword t
      then (do
        j ← or_value (2 ^ 32 - 1) (value_dword value)
        pure (signed_decimal 32 j ++ (10 ∷ [])))
      else if t == HiveType.qword
      then (do
        j ← or_value (2 ^ 64 - 1) (value_qword value)
        pure (signed_decimal 64 j ++ (10 ∷ [])))
      else if t == HiveType.multiple_strings
      then (do ss ← value_multiple_strings ic value; pure (puts_all ss))
      else (do v ← value_value value; pure v.bytes)

-- Quotes and backslashes are escaped by a backslash.
unfoldable pub escaped : List ℕ → List ℕ
escaped [] = []
escaped (c ∷ cs) = let r = escaped cs in if c == b'"' || c == b'\\' then b'\\' ∷ c ∷ r else c ∷ r

unfoldable pub quoted : List ℕ → List ℕ
quoted s = b'"' ∷ (escaped (c_string s) ++ (b'"' ∷ []))

-- The bytes by two hex digits each, commas between them; `first` is `j == 0`.
unfoldable pub hex_list : Bool → List ℕ → List ℕ
hex_list first [] = []
hex_list first (b ∷ bs) = (if first then [] else b',' ∷ []) ++ (hex_byte b ++ hex_list false bs)

abbrev is_empty : List ℕ → Bool
is_empty [] = true
is_empty (c ∷ cs) = false

unfoldable pub show_key : List ℕ → List ℕ
show_key key = (if is_empty (c_string key) then quoted (b'@' ∷ []) else quoted key) ++ (b'=' ∷ [])

-- `name(%d):` with the type.
unfoldable pub labelled : List ℕ → ℕ → List ℕ
labelled name t = name ++ (b'(' ∷ (signed_decimal 32 t ++ (b')' ∷ b':' ∷ [])))

abbrev pub str_label : List ℕ
str_label = b's' ∷ b't' ∷ b'r' ∷ []

abbrev pub hex_label : List ℕ
hex_label = b'h' ∷ b'e' ∷ b'x' ∷ []

abbrev pub dword_label : List ℕ
dword_label = b'd' ∷ b'w' ∷ b'o' ∷ b'r' ∷ b'd' ∷ b':' ∷ []

-- The data of a value behind its key. (The type of `hex` is that of `hivex_value_value`.)
unfoldable pub show_data : Iconv → ℕ → Read (List ℕ)
show_data ic value = do
  (t, len) ← value_type value
  if is_text t
      then (do
        s ← value_string ic value
        pure ((if t == HiveType.string then [] else labelled str_label t) ++ quoted s))
      else if is_dword t
      then (do
        j ← or_value (2 ^ 32 - 1) (value_dword value)
        pure (dword_label ++ digits 16 8 j []))
      else (do v ← value_value value; pure (labelled hex_label v.type ++ hex_list true v.bytes))

abbrev pub default_key : List ℕ → List ℕ
default_key s = if streq s (b'@' ∷ []) then [] else s
