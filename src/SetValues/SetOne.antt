-- ===== src/SetValues/SetOne.antt =====
-- One round of the loop of `hivex_node_set_values`: a value is set, and can be read back.
use hivex.Base.{
  ℕ, ◌+◌, ◌*◌, ◌%◌, ◌^◌, ◌≤◌, ◌<◌, ◌≡◌, refl, sym, ap, ◌∙◌, arith, true, inl, inr, length,
}
use mathlib.Core.Path.{subst}
use hivex.Hive.{Hive, ok}
use hivex.Hive.Bytes.{Image, get32, put32}
use hivex.Hive.Frame.{Apart, SameFrom, get32_same, put32_frame, get32-put32}
use hivex.Hive.Memory.{less_header, load32, store32}
use hivex.Hive.Memory.Laws.{load32_ok}
use hivex.Hive.Writer.{◌>>◌}
use hivex.Hive.Writer.Laws.{Returns, mono, bind, next, write_done}
use hivex.Layout.Nk
use hivex.Layout.Vk
use hivex.Alloc.{round_up}
use hivex.Alloc.Laws.{IsArena, frontier}
use hivex.Alloc.Sound.{Allocated, has_id, allocate_block-Allocated}
use hivex.SetValues.{SetValue, store_vk, store_data, raise_to, set_one}
use hivex.SetValues.ReadBack.{
  ReadsBack, IsRecord, image-IsBlock, block_len-image, image-IsRecord, record-ReadsBack,
}
use hivex.SetValues.Raised.{Raised, raise_to-Raised, image-IsArena}
use hivex.SetValues.Stored.{m5, stored, before_all}
use hivex.SetValues.Filled.{Holder, after_stores, store_vk_done, store_data_done, stores-IsRecord}

-- A value that fits into one record.
pub record IsSmall (v : SetValue) : Type 0 where
  pub key_short : length v.key < 2 ^ 16
  pub type_fits : v.t < 2 ^ 32
  pub value_short : length v.value ≤ 4

-- The node and the slot lie below what has been allocated, and apart from each other.
pub record IsPlaced (h : Hive) (node slot : ℕ) : Type 0 where
  pub node_below : node + Nk.sizeof ≤ frontier h
  pub slot_below : slot + 4 ≤ frontier h
  pub apart : Apart node Nk.sizeof slot 4

-- Below the frontier, only the slot and two fields of the node can change.
abbrev Untouched : Hive → ℕ → ℕ → Hive → Type 0
Untouched h node slot h' =
    (i : ℕ)
    → i < h.size
    → i < frontier h
    → Apart slot 4 i 1
    → Apart (node + Nk.max_vk_name_len) 8 i 1
    → h'.mem i ≡ h.mem i

-- The slot points to a new record, from which the value is read.
pub record IsStored (h : Hive) (node slot : ℕ) (v : SetValue) (h' : Hive) : Type 0 where
  pub vk : ℕ
  pub fresh : frontier h ≤ vk
  pub pointer : load32 slot h' ≡ ok (less_header vk % 2 ^ 32)
  pub reads : ReadsBack h' vk v
  pub arena : IsArena h'
  pub others : Untouched h node slot h'

module _ (h : Hive) (node slot : ℕ) (v : SetValue) (small : IsSmall v)
    (placed : IsPlaced h node slot) (vk : ℕ) (h1 : Hive)
    (al : Allocated (round_up (Vk.sizeof + length v.key)) b'v' b'k' h vk h1) where
  abbrev linked : Image
  linked = put32 h1.mem slot (less_header vk)

  abbrev h2 : Hive
  h2 = record h1 { mem = linked }

  linked_same : (n : ℕ) → SameFrom h1.mem linked vk n
  linked_same n i p q =
      put32_frame h1.mem slot _ i (inl (omega (arith, placed.slot_below, al.fresh)))

  rounds_up : Vk.sizeof + length v.key ≤ round_up (Vk.sizeof + length v.key)
  unfolding round_up
  rounds_up = omega arith

  h2-Holder : Holder h2 vk v
  h2-Holder = record {
    writable = al.arena.writable;
    granted = al.arena.granted;
    block =
        image-IsBlock h1 linked vk (linked_same 6)
          (record { valid = al.valid; id = al.id long (omega arith) (omega arith) });
    seg_len = round_up (Vk.sizeof + length v.key);
    used = true;
    len_is = block_len-image h1 linked vk (linked_same 4) al.header;
    room = rounds_up;
    inside = omega (arith, rounds_up, al.inside);
    key_short = small.key_short;
    type_fits = small.type_fits;
    value_short = small.value_short;
  }
    where
      long : has_id (round_up (Vk.sizeof + length v.key)) b'v' b'k' ≡ true
      long = unfold round_up in ground arith

  abbrev filled : Hive
  filled = after_stores h2 vk v h2-Holder

  -- The record is filled, and the slot points to it.
  record IsLinked (g : Hive) : Type 0 where
    pub writable : g.writable ≡ true
    pub size : g.size ≡ h1.size
    pub whole : IsRecord g vk v
    pub arena : IsArena g
    pub others : Untouched h node slot g
    pub pointer : get32 g.mem slot ≡ less_header vk % 2 ^ 32

  filled-IsLinked : IsLinked filled
  filled-IsLinked = record {
    writable = al.arena.writable;
    size = refl;
    whole = stores-IsRecord h2 vk v h2-Holder;
    arena = image-IsArena h1 _ al.arena;
    others = λ i inside below slot_apart fields_apart.
        before_all linked vk v small.value_short i (omega (arith, al.fresh))
        ∙ put32_frame h1.mem slot _ i slot_apart
        ∙ al.same.mem i inside below;
    pointer =
        get32_same linked (stored linked vk v) slot (λ i p q.
          before_all linked vk v small.value_short i (omega (arith, placed.slot_below, al.fresh)))
        ∙ get32-put32 h1.mem slot _;
  }

  -- A field of the node changes neither.
  still-IsLinked :
      (k : ℕ) (g g' : Hive) → 64 ≤ k → k ≤ 68 → IsLinked g → Raised (node + k) g g' → IsLinked g'
  still-IsLinked k g g' low high l r = subst IsLinked (sym r.is) (record {
    writable = l.writable;
    size = l.size;
    arena = image-IsArena g r.mem l.arena;
    others = λ i inside below slot_apart fields_apart.
        r.others i (field_apart i fields_apart) ∙ l.others i inside below slot_apart fields_apart;
    whole =
        image-IsRecord g r.mem vk v
          (λ i p q. r.others i (inl (omega (arith, placed.node_below, al.fresh)))) l.whole;
    pointer =
        get32_same g.mem r.mem slot (λ i p q. r.others i (beside i p q placed.apart)) ∙ l.pointer;
  })
    where
      field_apart : (i : ℕ) → Apart (node + Nk.max_vk_name_len) 8 i 1 → Apart (node + k) 4 i 1
      field_apart i (inl a) = inl (omega arith)
      field_apart i (inr a) = inr (omega arith)

      beside :
          (i : ℕ) → slot ≤ i → i < slot + 4 → Apart node Nk.sizeof slot 4 → Apart (node + k) 4 i 1
      beside i p q (inl a) = inl (omega arith)
      beside i p q (inr a) = inr (omega arith)

  node_inside : (k : ℕ) (g : Hive) → k + 4 ≤ Nk.sizeof → IsLinked g → node + k + 4 ≤ g.size
  node_inside k g low l = omega (arith, placed.node_below, al.fresh, al.inside, l.size)

  IsLinked-IsStored : (g : Hive) → IsLinked g → IsStored h node slot v g
  IsLinked-IsStored g l = record {
    vk = vk;
    fresh = al.fresh;
    pointer =
        load32_ok slot g (omega (arith, placed.slot_below, al.fresh, al.inside, l.size))
        ∙ ap ok l.pointer;
    reads = record-ReadsBack g vk v l.whole;
    arena = l.arena;
    others = l.others;
  }

  -- All that follows the allocation.
  after_alloc :
      Returns
        (λ u h'. IsStored h node slot v h')
        ((do
          store32 slot (less_header vk)
          store_vk vk v
          store_data vk v.value
          raise_to (node + Nk.max_vk_name_len) (length v.key * 2)
          raise_to (node + Nk.max_vk_data_len) (length v.value))
          h1)
  unfolding store32
  after_alloc =
      next h1 _ _
        (write_done h1 slot 4 _ al.arena.writable
          (omega (arith, placed.slot_below, al.fresh, al.inside)))
        (next h2 _ _ (store_vk_done h2 vk v h2-Holder) (
          next (record h2 { mem = m5 linked vk v }) _ _ (store_data_done h2 vk v h2-Holder)
            (bind filled _ _
              (raise_to-Raised filled (node + 64) (length v.key * 2) al.arena.writable
                (node_inside 64 filled (omega arith) filled-IsLinked))
              λ u g r.
                let l = still-IsLinked 64 filled g (omega arith) (omega arith) filled-IsLinked r in
                mono
                  (raise_to-Raised g (node + 68) (length v.value) l.writable
                    (node_inside 68 g (omega arith) l))
                  λ u' g' r'.
                    IsLinked-IsStored g'
                      (still-IsLinked 68 g g' (omega arith) (omega arith) l r'))))

-- On a writable handle that is in order, with the allocator serving every request, setting a value
-- of at most four bytes, as a number of 32 bits is, succeeds for a key shorter than 2^16 and a type
-- below 2^32; the node and the slot of the value list have to lie below the frontier, and apart. Then
-- the slot points to a new record behind the frontier, from which `hivex_value_key` reads the key and
-- `hivex_value_value` the type and the data that were set. The handle is in order again, and below
-- the frontier no byte has changed but the slot and the two largest lengths in the node.
pub set_one-IsStored :
    (h : Hive) (node slot : ℕ) (v : SetValue)
    → IsArena h
    → IsSmall v
    → IsPlaced h node slot
    → Returns (λ u h'. IsStored h node slot v h') (set_one node slot v h)
unfolding set_one
set_one-IsStored h node slot v ar small placed =
    bind h _ _
      (allocate_block-Allocated (Vk.sizeof + length v.key) b'v' b'k' h ar (omega arith)
        (omega (arith, small.key_short)))
      λ vk h1 al. after_alloc h node slot v small placed vk h1 al
