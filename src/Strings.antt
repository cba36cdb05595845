-- ===== src/Strings.antt =====
-- The values of lib/hivex.c that hold UTF-16 strings. The conversion itself is `iconv` of the C
-- library, a parameter.
pub mod Ends
pub mod Length
use hivex.Base.{
  ℕ, zero, suc, ◌+◌, ◌*◌, ◌%◌, ◌^◌, ◌&&◌, ◌||◌, Option, none, some, List, [], ◌∷◌, ◌++◌, ltb, ◌==◌,
  if◌then◌else◌, length, take, drop,
}
use hivex.Hive.{Errno, einval, e2big, stuck, Read}
use hivex.Hive.Reader.{◌>>=◌, ◌>>◌, pure, throw, stop, require, malloc}
use hivex.HiveType
use hivex.Value.{value_value}

-- What one call of `iconv` gives: all of the output, or `errno`.
pub data Conversion : Type 0 where
  converted : List ℕ → Conversion
  refused : Errno → Conversion
  too_big : Conversion

-- `opens` is the error of `iconv_open`, if it fails; `convert input room` is a call of `iconv` with
-- `room` bytes of output space.
pub record Iconv : Type 0 where
  pub opens : Option Errno
  pub convert : List ℕ → ℕ → Conversion

-- Bytes before the first pair of zeros, in whole pairs.
unfoldable pub utf16_string_len : List ℕ → ℕ
utf16_string_len [] = 0
utf16_string_len (a ∷ []) = 0
utf16_string_len (a ∷ b ∷ rest) = if (a == 0) && (b == 0) then 0 else 2 + utf16_string_len rest

module _ (ic : Iconv) where
  -- From the label `again`, with an output buffer of `outalloc` bytes.
  unfoldable pub convert_loop : ℕ → List ℕ → ℕ → Read (List ℕ)
  convert_loop zero input outalloc = stop stuck
  convert_loop (suc fuel) input outalloc = do
    malloc ((outalloc + 1) % 2 ^ 64)
    elim (ic.convert input outalloc) [
      | converted out ↦ pure out
      | refused e ↦ throw e
      | too_big ↦
          if ltb (outalloc * 2 % 2 ^ 64) outalloc
          then throw e2big
          else convert_loop fuel input (outalloc * 2 % 2 ^ 64)
    ]

  unfoldable pub windows_utf16_to_utf8 : List ℕ → Read (List ℕ)
  windows_utf16_to_utf8 input = elim ic.opens [
    | some e ↦ throw e
    | none ↦ convert_loop 66 input (length input)
  ]

  unfoldable pub value_string : ℕ → Read (List ℕ)
  value_string value = do
    v ← value_value value
    require
        (v.type == HiveType.string || v.type == HiveType.expand_string || v.type == HiveType.link)
        einval
    windows_utf16_to_utf8 (take (utf16_string_len v.bytes) v.bytes)

  -- The strings in the bytes from `p` on, which end at an empty one or with the bytes.
  unfoldable pub strings_loop : ℕ → List ℕ → List (List ℕ) → Read (List (List ℕ))
  strings_loop zero p ret = stop stuck
  strings_loop (suc fuel) p ret =
      let plen = utf16_string_len p in
      if plen == 0 then pure ret else (do
        malloc ((2 + length ret) * 8)
        s ← windows_utf16_to_utf8 (take plen p)
        strings_loop fuel (drop (plen + 2) p) (ret ++ (s ∷ [])))

  unfoldable pub value_multiple_strings : ℕ → Read (List (List ℕ))
  value_multiple_strings value = do
    v ← value_value value
    require (v.type == HiveType.multiple_strings) einval
    malloc 8
    strings_loop (length v.bytes + 1) v.bytes []
