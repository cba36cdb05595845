-- ===== src/Tests/Setting.antt =====
-- Setting a number of 32 bits in the small hive.
use hivex.Base.{arith, inl, [], ◌∷◌}
use hivex.Hive.Writer.Laws.{Returns}
use hivex.HiveType
use hivex.Alloc.Laws.{frontier}
use hivex.SetValues.{SetValue, set_one}
use hivex.SetValues.SetOne.{IsSmall, IsPlaced, IsStored, set_one-IsStored}
use hivex.Tests.{sample_hive, sample-IsArena}

abbrev number : SetValue
number = record { key = b'n' ∷ []; t = HiveType.dword; value = 1 ∷ 2 ∷ 3 ∷ 4 ∷ [] }

number-IsSmall : IsSmall number
number-IsSmall = record {
  key_short = omega arith;
  type_fits = omega arith;
  value_short = omega arith;
}

slot-IsPlaced : IsPlaced sample_hive 0x1080 0x10ec
unfolding frontier
slot-IsPlaced = record {
  node_below = omega arith;
  slot_below = omega arith;
  apart = inl (omega arith);
}

set_one-IsStored_example :
    Returns
      (λ u h'. IsStored sample_hive 0x1080 0x10ec number h')
      (set_one 0x1080 0x10ec number sample_hive)
set_one-IsStored_example =
    set_one-IsStored sample_hive 0x1080 0x10ec number sample-IsArena number-IsSmall slot-IsPlaced
