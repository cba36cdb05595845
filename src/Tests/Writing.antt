-- ===== src/Tests/Writing.antt =====
-- The theorems on strings, on names and on the writing of a hive, at concrete inputs.
use hivex.Base.{
  inl, ◌*◌, ◌≡◌, ◌⊎◌, refl, arith, [], ◌∷◌, ◌++◌, All, true, false, none, length, leb,
  if◌then◌else◌,
}
use hivex.Hive.{Hive, ok}
use hivex.Hive.Bytes.{Image, get32, put32}
use hivex.Hive.Frame.{IsImage, put32-IsImage, get32-put32}
use hivex.Hive.Reader.Ends.{Ends}
use hivex.Hive.Writer.Laws.{Returns}
use hivex.Open.{check_header, fresh_handle}
use hivex.Value.{from_le}
use hivex.CString.{c_string, case_compare, strcasecmp, strcaseeq}
use hivex.Commit.{hivex_commit}
use hivex.Commit.Sound.{IsCommitted, no_errors, hivex_commit-IsCommitted}
use hivex.Commit.Reopen.{hivex_commit-check_header}
use hivex.Strings.{Iconv, converted, too_big, windows_utf16_to_utf8, utf16_string_len}
use hivex.Strings.Ends.{IsSane, windows_utf16_to_utf8-Ends}
use hivex.Strings.Length.{IsLength, utf16_string_len-IsLength}
use hivex.Records.Move.{IsCopied, move_keys-IsCopied}
use hivex.Records.{move_keys, calc_hash, hash_loop}
use hivex.Records.Hash.{calc_hash-strcaseeq}
use hivex.SetValues.{SetValue, merge_value}
use hivex.SetValues.Replace.{IsOther, IsLast, merge_value_cases}
use hivex.Tests.{sample_hive, all_granted}

-- "regf" and the version 1.
abbrev small_image : Image
small_image = put32 (put32 (λ i. 0) 0 0x66676572) 20 1

abbrev small_hive : Hive
small_hive = record sample_hive { mem = small_image }

small-IsImage : IsImage small_image
small-IsImage = put32-IsImage _ 20 1 (put32-IsImage _ 0 0x66676572 (λ i. omega arith))

small_version : get32 small_image 20 ≡ 1
small_version = get32-put32 _ 20 1

hivex_commit-IsCommitted_example :
    Returns
      (λ f h'. IsCommitted small_hive f × (h'.mem ≡ f.bytes))
      (hivex_commit no_errors 0 small_hive)
hivex_commit-IsCommitted_example =
    hivex_commit-IsCommitted small_hive refl (omega arith) small-IsImage

hivex_commit-check_header_example :
    Returns
      (λ f h'. check_header (fresh_handle all_granted false f) ≡ ok tt)
      (hivex_commit no_errors 0 small_hive)
unfolding put32
hivex_commit-check_header_example =
    hivex_commit-check_header small_hive all_granted false refl (omega arith) small-IsImage
      (refl, refl, refl, refl) small_version refl

-- A converter that needs as many bytes as there are in the input.
abbrev plain_iconv : Iconv
plain_iconv = record {
  opens = none;
  convert = λ input room. if leb (length input) room then converted input else too_big;
}

plain-IsSane : IsSane plain_iconv
plain-IsSane room e = ground arith

windows_utf16_to_utf8-Ends_example :
    Ends (windows_utf16_to_utf8 plain_iconv (b'h' ∷ 0 ∷ []) small_hive)
windows_utf16_to_utf8-Ends_example =
    windows_utf16_to_utf8-Ends plain_iconv small_hive (b'h' ∷ 0 ∷ []) plain-IsSane (omega arith)

utf16_string_len-IsLength_example :
    IsLength (b'h' ∷ 0 ∷ 0 ∷ 0 ∷ 7 ∷ []) (utf16_string_len (b'h' ∷ 0 ∷ 0 ∷ 0 ∷ 7 ∷ []))
utf16_string_len-IsLength_example = utf16_string_len-IsLength (b'h' ∷ 0 ∷ 0 ∷ 0 ∷ 7 ∷ [])

names_equal : strcaseeq (b'K' ∷ b'e' ∷ []) (b'k' ∷ b'E' ∷ []) ≡ true
unfolding strcaseeq strcasecmp case_compare c_string
names_equal = refl

calc_hash-strcaseeq_example :
    (calc_hash b'l' b'h' (c_string (b'K' ∷ b'e' ∷ []))
      ≡ calc_hash b'l' b'h' (c_string (b'k' ∷ b'E' ∷ [])))
    × (from_le (calc_hash b'l' b'h' (c_string (b'K' ∷ b'e' ∷ [])))
        ≡ hash_loop 0 (c_string (b'K' ∷ b'e' ∷ [])))
calc_hash-strcaseeq_example = calc_hash-strcaseeq (b'K' ∷ b'e' ∷ []) (b'k' ∷ b'E' ∷ []) names_equal

abbrev new_value : SetValue
new_value = record { key = b'k' ∷ []; t = 4; value = 1 ∷ 0 ∷ 0 ∷ 0 ∷ [] }

abbrev old_value : SetValue
old_value = record { key = b'K' ∷ []; t = 3; value = [] }

merge_value_cases_example :
    (All (IsOther new_value.key) (old_value ∷ [])
      × (merge_value new_value (old_value ∷ []) ≡ (old_value ∷ []) ++ (new_value ∷ [])))
    ⊎ ((l : IsLast new_value.key (old_value ∷ [])) × (merge_value new_value (old_value ∷ [])
          ≡ l.before ++ (new_value ∷ l.behind)))
merge_value_cases_example = merge_value_cases new_value (old_value ∷ [])

move_keys-IsCopied_example :
    Returns
      (λ u h'. IsCopied 0x10e0 0x1800 (8 * 2) sample_hive h')
      (move_keys 2 0x10e0 0x1800 sample_hive)
move_keys-IsCopied_example =
    move_keys-IsCopied sample_hive 2 0x10e0 0x1800 refl (omega arith) (omega arith)
      (inl (omega arith))
