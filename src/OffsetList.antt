-- ===== src/OffsetList.antt =====
-- `struct offset_list` of lib/hivex.c: a growing array that is returned with a 0 at its end.
pub mod Laws
use hivex.Base.{ℕ, zero, suc, ◌+◌, ◌*◌, List, [], ◌∷◌, ◌++◌, leb, ◌==◌, if◌then◌else◌, length}
use hivex.Hive.{Read}
use hivex.Hive.Reader.{◌>>=◌, ◌>>◌, pure, assert, malloc}

-- `len` is the length of `offsets`.
pub record OffsetList : Type 0 where
  pub offsets : List ℕ
  pub alloc : ℕ

abbrev pub init_offset_list : OffsetList
init_offset_list = record { offsets = []; alloc = 0 }

unfoldable pub grow_offset_list : OffsetList → ℕ → Read OffsetList
grow_offset_list list alloc = do
  assert (leb (length list.offsets) alloc)
  malloc (alloc * 8)
  pure (record list { alloc = alloc })

unfoldable pub add_to_offset_list : OffsetList → ℕ → Read OffsetList
add_to_offset_list list offset = do
  list' ←
      if leb list.alloc (length list.offsets)
      then grow_offset_list list (if list.alloc == 0 then 4 else list.alloc * 2)
      else pure list
  pure (record list' { offsets = list'.offsets ++ (offset ∷ []) })

-- The array with its terminator.
unfoldable pub return_offset_list : OffsetList → Read (List ℕ)
return_offset_list list = do list' ← add_to_offset_list list 0; pure list'.offsets

-- What a caller's loop `for (i = 0; a[i] != 0; ++i)` runs over.
unfoldable pub until_zero : List ℕ → List ℕ
until_zero [] = []
until_zero (x ∷ xs) = if x == 0 then [] else x ∷ until_zero xs
