-- ===== src/Records.antt =====
-- The operations of lib/hivex.c that write lf and lh records, and the hash of a name.
pub mod Hash
pub mod Move
use hivex.Base.{
  ℕ, zero, suc, ◌+◌, ◌-◌, ◌*◌, ◌/◌, ◌%◌, ◌^◌, ◌&&◌, List, [], ◌∷◌, ltb, ◌==◌, if◌then◌else◌, take,
}
use hivex.Hive.{Cmd}
use hivex.Hive.Writer.{◌>>=◌, ◌>>◌, pure, assert, get, asks}
use hivex.Hive.Memory.{less_header, load8, load16, load_bytes, store16, store32, store_bytes}
use hivex.Layout.Block
use hivex.Layout.Lf
use hivex.Block.{is_valid_block}
use hivex.CString.{to_upper}
use hivex.Children.{is_lf}
use hivex.Alloc.{allocate_block, mark_block_unused}

-- A `char`, which is signed, as a `size_t`.
unfoldable pub char_size : ℕ → ℕ
char_size c = if ltb c 128 then c else c + 2 ^ 64 - 256

-- One round of the hash of lh records, on a `uint32_t`.
unfoldable pub hash_step : ℕ → ℕ → ℕ
unfolding char_size to_upper
hash_step h c = (h * 37 % 2 ^ 32 + char_size (to_upper c)) % 2 ^ 32

unfoldable pub hash_loop : ℕ → List ℕ → ℕ
unfolding hash_step
hash_loop h [] = h
hash_loop h (c ∷ cs) = hash_loop (hash_step h c) cs

-- A `uint32_t` as the bytes that it is stored in.
unfoldable pub le32_bytes : ℕ → List ℕ
le32_bytes h = h % 256 ∷ h / 256 % 256 ∷ h / 65536 % 256 ∷ h / 16777216 % 256 ∷ []

-- The bytes that are written at `ret`; `a` and `b` are the first bytes of the type.
unfoldable pub calc_hash : ℕ → ℕ → List ℕ → List ℕ
unfolding hash_loop le32_bytes
calc_hash a b name =
    if (a == b'l') && (b == b'f') then take 4 name else le32_bytes (hash_loop 0 name)

-- The key at `o`: the node and the hash of its name, for a record of type `a`, `b`.
unfoldable pub store_key : ℕ → ℕ → ℕ → List ℕ → ℕ → Cmd (Unit {0})
store_key o a b name node = do
  store32 o (less_header node)
  store_bytes (o + 4) (calc_hash a b name)

unfoldable pub new_lh_record : List ℕ → ℕ → Cmd ℕ
new_lh_record name node = do
  offset ← allocate_block Lf.sizeof b'l' b'h'
  store16 (offset + Lf.nr_keys) 1
  store_key (offset + Lf.keys) b'l' b'h' name node
  pure offset

-- `n` keys of eight bytes, from `src` to `dst`.
unfoldable pub move_keys : ℕ → ℕ → ℕ → Cmd (Unit {0})
move_keys zero src dst = pure tt
move_keys (suc n) src dst = do
  key ← get (load_bytes src 8)
  store_bytes dst key
  move_keys n (src + 8) (dst + 8)

-- A copy of the record at `old_offs` with a key more, which takes its place.
unfoldable pub insert_lf_record : ℕ → ℕ → List ℕ → ℕ → Cmd ℕ
insert_lf_record old_offs posn name node = do
  valid ← asks (λ h. is_valid_block h old_offs)
  assert valid
  lf ← get (is_lf old_offs)
  assert lf
  old_nr_keys ← get (load16 (old_offs + Lf.nr_keys))
  let nr_keys = old_nr_keys + 1
  let seg_len = Lf.sizeof + (nr_keys - 1) * 8
  id0 ← get (load8 (old_offs + Block.id))
  id1 ← get (load8 (old_offs + Block.id + 1))
  new_offs ← allocate_block seg_len id0 id1
  store16 (new_offs + Lf.nr_keys) nr_keys
  move_keys posn (old_offs + Lf.keys) (new_offs + Lf.keys)
  new0 ← get (load8 (new_offs + Block.id))
  new1 ← get (load8 (new_offs + Block.id + 1))
  store_key (new_offs + Lf.keys + posn * 8) new0 new1 name node
  move_keys (nr_keys - (posn + 1)) (old_offs + Lf.keys + posn * 8)
      (new_offs + Lf.keys + (posn + 1) * 8)
  mark_block_unused old_offs
  pure new_offs
