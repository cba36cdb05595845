-- ===== src/Visit/Node.antt =====
-- `hivex_visit`, `hivex_visit_node` and `hivex__visit_node` of lib/hivex.c.
use hivex.Base.{
  ℕ, zero, suc, ◌+◌, ◌*◌, ◌/◌, Bool, true, false, Option, none, List, [], ◌∷◌, leb, ltb,
  if◌then◌else◌,
}
use hivex.Hive.{Hive, enomem, eloop, fault, stuck, Result, ok, err, trap}
use hivex.Hive.Bitmap.{bitmap_clr, bitmap_tst}
use hivex.Node.{hivex_root, node_name}
use hivex.OffsetList.{until_zero}
use hivex.Children.{node_children}
use hivex.Values.{node_values}
use hivex.Strings.{Iconv}
use hivex.Visit.{
  Visitor, Walk, Step, next, bad, refused, crashed, died, Visit, pure, fail, ◌>>=◌, ◌>>◌, query,
  call_if, given,
}
use hivex.Visit.Value.{visit_values}

module _ {S : Type 0} where
  -- `BITMAP_TST (unvisited, node)`
  unfoldable pub is_unvisited : ℕ → Visit S Bool
  is_unvisited node w =
      if ltb (node / 32) w.room then next (bitmap_tst w.unvisited node) w else crashed fault

  -- `BITMAP_CLR (unvisited, node)`
  unfoldable pub set_visited : ℕ → Visit S (Unit {0})
  set_visited node w = next tt (record w { unvisited = bitmap_clr w.unvisited node })

  -- `skip_bad ? 0 : -1` after an internal error.
  unfoldable pub settle : Bool → Step S (Unit {0}) → Step S (Unit {0})
  settle skip (next u w) = next u w
  settle skip (bad e w) = if skip then next tt w else refused e w
  settle skip (refused e w) = refused e w
  settle skip (crashed t) = crashed t
  settle skip (died t) = died t

  unfoldable pub visit_children : (ℕ → Visit S (Unit {0})) → List ℕ → Visit S (Unit {0})
  visit_children visit [] = pure tt
  visit_children visit (child ∷ children) = do visit child; visit_children visit children

  module _ (ic : Iconv) (vtor : Visitor S) (skip : Bool) where
    -- What is done for a node that has not been visited yet; `visit` is the call for a child.
    unfoldable pub visit_record : (ℕ → Visit S (Unit {0})) → ℕ → Visit S (Unit {0})
    visit_record visit node = do
      set_visited node
      name ← query (node_name node)
      call_if (given vtor.node_start node) name
      values ← query (node_values node)
      visit_values ic vtor node (until_zero values)
      children ← query (node_children node)
      visit_children visit (until_zero children)
      call_if (given vtor.node_end node) name

    unfoldable pub visit_once : (ℕ → Visit S (Unit {0})) → ℕ → Visit S (Unit {0})
    visit_once visit node = do
      fresh ← is_unvisited node
      if fresh then visit_record visit node else fail eloop

    -- `hivex__visit_node`, for a depth of at most `fuel` nodes.
    unfoldable pub visit_node_loop : ℕ → ℕ → Visit S (Unit {0})
    visit_node_loop zero node w = crashed stuck
    visit_node_loop (suc fuel) node w = settle skip (visit_once (visit_node_loop fuel) node w)

abbrev pub keep_if {ℓ} : {X : Type ℓ} → Bool → Option X → Option X
keep_if true x = x
keep_if false x = none

-- The first `len` bytes of the caller's structure, the rest null pointers. (A length that cuts a
-- pointer in two is not modelled: it counts as cutting it off.)
unfoldable pub copy_visitor : {S : Type 0} → ℕ → Visitor S → Visitor S
copy_visitor len v = record {
  node_start = keep_if (leb 8 len) v.node_start;
  node_end = keep_if (leb 16 len) v.node_end;
  string_cb = keep_if (leb 24 len) v.string_cb;
  multiple_strings_cb = keep_if (leb 32 len) v.multiple_strings_cb;
  string_invalid_utf16_cb = keep_if (leb 40 len) v.string_invalid_utf16_cb;
  dword_cb = keep_if (leb 48 len) v.dword_cb;
  qword_cb = keep_if (leb 56 len) v.qword_cb;
  binary_cb = keep_if (leb 64 len) v.binary_cb;
  none_cb = keep_if (leb 72 len) v.none_cb;
  other_cb = keep_if (leb 80 len) v.other_cb;
  any_cb = keep_if (leb 88 len) v.any_cb;
}

-- `sizeof (struct hivex_visitor)`
abbrev pub visitor_size : ℕ
visitor_size = 88

abbrev pub start_walk : {S : Type 0} → S → Hive → Walk S
start_walk opaque h = record {
  hive = h;
  opaque = opaque;
  unvisited = h.bitmap;
  room = 1 + h.size / 32;
}

unfoldable pub visit_node :
    {S : Type 0} → Iconv → ℕ → Visitor S → ℕ → Bool → S → Hive → Step S (Unit {0})
visit_node ic node vtor len skip opaque h =
    if h.grants (1 + h.size / 32)
    then visit_node_loop ic (copy_visitor len vtor) skip (8 * (1 + h.size / 32) + 1) node
        (start_walk opaque h)
    else refused enomem (start_walk opaque h)

-- The offset that `hivex_root` returns, 0 for an error.
unfoldable pub root_or_zero : Result ℕ → ℕ
root_or_zero (ok root) = root
root_or_zero (err e) = 0
root_or_zero (trap t) = 0

unfoldable pub hivex_visit :
    {S : Type 0} → Iconv → Visitor S → ℕ → Bool → S → Hive → Step S (Unit {0})
hivex_visit ic vtor len skip opaque h =
    visit_node ic (root_or_zero (hivex_root h)) vtor len skip opaque h
