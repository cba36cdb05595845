-- ===== src/Visit/Once.antt =====
-- A walk starts no node twice, whatever the callbacks do.
use hivex.Base.{
  ℕ, ◌+◌, ◌*◌, ◌/◌, ◌≡◌, ◌≢◌, arith, Bool, true, false, Option, none, some, List, [], ◌∷◌, All,
  if◌then◌else◌,
}
use hivex.Hive.{Hive, enomem}
use hivex.Hive.Bitmap.{bitmap_clr, bitmap_tst}
use hivex.Hive.Bitmap.Laws.{IsBitmap, tst-clr, clr-IsBitmap}
use hivex.Strings.{Iconv}
use hivex.Visit.{
  Reply, continue, refuse, die, Callback, Visitor, Walk, Step, next, refused, died, call, call_if,
  given,
}
use hivex.Visit.Node.{keep_if, copy_visitor, visit_node_loop, visit_node, start_walk}
use hivex.Visit.Rule.{Holds, at_next, at_refused, at_died, AnyEnd, visited, Safe, Obeys}
use hivex.Visit.Rule.Node.{visit_node_loop-Safe}

-- No member of the list comes again.
abbrev pub IsOnce : List ℕ → Type 0
IsOnce [] = Unit {0}
IsOnce (n ∷ ns) = All (λ k. n ≢ k) ns × IsOnce ns

All-map : {P Q : ℕ → Type 0} (ns : List ℕ) → ((n : ℕ) → P n → Q n) → All P ns → All Q ns
All-map [] f a = tt
All-map (n ∷ ns) f (p, a) = (f n p, All-map ns f a)

cleared : (b : ℕ → ℕ) (bytes : IsBitmap b) (node : ℕ) → bitmap_tst (bitmap_clr b node) node ≡ false
cleared b bytes node = ground (arith, tst-clr b bytes node node)

still_clear :
    (b : ℕ → ℕ) (bytes : IsBitmap b) (node n : ℕ)
    → bitmap_tst b n ≡ false
    → bitmap_tst (bitmap_clr b node) n ≡ false
still_clear b bytes node n e = ground (arith, tst-clr b bytes node n, e)

was_set :
    (b : ℕ → ℕ) (bytes : IsBitmap b) (node n : ℕ)
    → bitmap_tst (bitmap_clr b node) n ≡ true
    → bitmap_tst b n ≡ true
was_set b bytes node n e = ground (arith, tst-clr b bytes node n, e)

module _ {S : Type 0} where
  abbrev beside : List ℕ → Reply S → Reply (List ℕ × S)
  beside log (continue s h) = continue (log, s) h
  beside log (refuse e s h) = refuse e (log, s) h
  beside log (die t) = die t

  abbrev lift :
      {X Y : Type 0} → Option (X → Y → Callback S) → Option (X → Y → Callback (List ℕ × S))
  lift none = none
  lift (some cb) = some (λ x y (log, s) h. beside log (cb x y s h))

  abbrev log_start : Option (ℕ → List ℕ → Callback S) → ℕ → List ℕ → Callback (List ℕ × S)
  log_start none node name (log, s) h = continue (node ∷ log, s) h
  log_start (some cb) node name (log, s) h = beside (node ∷ log) (cb node name s h)

  -- The caller's visitor, which also writes down the nodes that are started, the last one first.
  unfoldable pub logged : Visitor S → Visitor (List ℕ × S)
  logged v = record {
    node_start = some (log_start v.node_start);
    node_end = lift v.node_end;
    string_cb = lift v.string_cb;
    multiple_strings_cb = lift v.multiple_strings_cb;
    string_invalid_utf16_cb = lift v.string_invalid_utf16_cb;
    dword_cb = lift v.dword_cb;
    qword_cb = lift v.qword_cb;
    binary_cb = lift v.binary_cb;
    none_cb = lift v.none_cb;
    other_cb = lift v.other_cb;
    any_cb = lift v.any_cb;
  }

  -- The nodes of the log have been marked since the bitmap was `b`, and are distinct.
  pub record IsLog (b : ℕ → ℕ) (w : Walk (List ℕ × S)) : Type 0 where
    pub bytes : IsBitmap w.unvisited
    pub once : IsOnce w.opaque.0
    pub marked : All (λ n. bitmap_tst w.unvisited n ≡ false) w.opaque.0
    pub valid : All (λ n. bitmap_tst b n ≡ true) w.opaque.0
    pub fewer : (n : ℕ) → bitmap_tst w.unvisited n ≡ true → bitmap_tst b n ≡ true

  module _ (b : ℕ → ℕ) where
    mark-IsLog : (node : ℕ) (w : Walk (List ℕ × S)) → IsLog b w → IsLog b (visited node w)
    mark-IsLog node w i = record {
      bytes = clr-IsBitmap w.unvisited i.bytes node;
      once = i.once;
      marked = All-map w.opaque.0 (λ n. still_clear w.unvisited i.bytes node n) i.marked;
      valid = i.valid;
      fewer = λ n e. i.fewer n (was_set w.unvisited i.bytes node n e);
    }

    -- A node that has been unmarked is put on the log after its bit has been cleared.
    start-IsLog :
        (node : ℕ) (w : Walk (List ℕ × S)) (h : Hive) (s : S)
        → IsLog b w
        → bitmap_tst w.unvisited node ≡ true
        → IsLog b (record (visited node w) { hive = h; opaque = (node ∷ w.opaque.0, s) })
    start-IsLog node w h s i set = record {
      bytes = clr-IsBitmap w.unvisited i.bytes node;
      once = (All-map w.opaque.0 (λ k clear same. absurd (cc)) i.marked, i.once);
      marked = (
        cleared w.unvisited i.bytes node,
        All-map w.opaque.0 (λ n. still_clear w.unvisited i.bytes node n) i.marked,
      );
      valid = (i.fewer node set, i.valid);
      fewer = λ n e. i.fewer n (was_set w.unvisited i.bytes node n e);
    }

    same-IsLog :
        (w : Walk (List ℕ × S)) (h : Hive) (s : S)
        → IsLog b w
        → IsLog b (record w { hive = h; opaque = (w.opaque.0, s) })
    same-IsLog w h s i = record {
      bytes = i.bytes;
      once = i.once;
      marked = i.marked;
      valid = i.valid;
      fewer = i.fewer;
    }

    -- A callback that leaves the log alone.
    lift-Safe :
        {X Y : Type 0} (c : Bool) (cb : Option (X → Y → Callback S)) (x : X) (y : Y)
        → Safe (IsLog b) AnyEnd (call_if (given (keep_if c (lift cb)) x) y)
    unfolding call_if call
    lift-Safe false cb x y w i = at_next i
    lift-Safe true none x y w i = at_next i
    lift-Safe true (some cb) x y w i = go (cb x y w.opaque.1 w.hive)
      where
        go :
            (r : Reply S)
            → Holds
                (IsLog b)
                AnyEnd
                (elim (beside w.opaque.0 r) as (λ r'. Step (List ℕ × S) (Unit {0})) [
                  | continue s h ↦ next tt (record w { hive = h; opaque = s })
                  | refuse e s h ↦ refused e (record w { hive = h; opaque = s })
                  | die t ↦ died t
                ])
        go (continue s h) = at_next (same-IsLog w h s i)
        go (refuse e s h) = at_refused (same-IsLog w h s i)
        go (die t) = at_died tt

    start-Holds :
        (c : Bool) (cb : Option (ℕ → List ℕ → Callback S)) (node : ℕ) (name : List ℕ)
        (w : Walk (List ℕ × S))
        → IsLog b w
        → bitmap_tst w.unvisited node ≡ true
        → Holds
            (IsLog b)
            AnyEnd
            (call_if (given (keep_if c (some (log_start cb))) node) name (visited node w))
    unfolding call_if call
    start-Holds false cb node name w i set = at_next (mark-IsLog node w i)
    start-Holds true none node name w i set = at_next (start-IsLog node w w.hive w.opaque.1 i set)
    start-Holds true (some cb) node name w i set = go (cb node name w.opaque.1 w.hive)
      where
        go :
            (r : Reply S)
            → Holds
                (IsLog b)
                AnyEnd
                (elim (beside (node ∷ w.opaque.0) r) as (λ r'. Step (List ℕ × S) (Unit {0})) [
                  | continue s h ↦ next tt (record (visited node w) { hive = h; opaque = s })
                  | refuse e s h ↦ refused e (record (visited node w) { hive = h; opaque = s })
                  | die t ↦ died t
                ])
        go (continue s h) = at_next (start-IsLog node w h s i set)
        go (refuse e s h) = at_refused (start-IsLog node w h s i set)
        go (die t) = at_died tt

    logged-Obeys : (len : ℕ) (v : Visitor S) → Obeys (IsLog b) AnyEnd (copy_visitor len (logged v))
    unfolding copy_visitor logged
    logged-Obeys len v = record {
      mark = λ node w i set. mark-IsLog node w i;
      start = λ node name w i set. start-Holds _ v.node_start node name w i set;
      finish = λ node name. lift-Safe _ v.node_end node name;
      values = record {
        string = λ x y t. lift-Safe _ v.string_cb x y;
        multiple_strings = λ x y t. lift-Safe _ v.multiple_strings_cb x y;
        string_invalid = λ x y t. lift-Safe _ v.string_invalid_utf16_cb x y;
        dword = λ x y t. lift-Safe _ v.dword_cb x y;
        qword = λ x y t. lift-Safe _ v.qword_cb x y;
        binary = λ x y t. lift-Safe _ v.binary_cb x y;
        none_value = λ x y t. lift-Safe _ v.none_cb x y;
        other_value = λ x y t. lift-Safe _ v.other_cb x y;
        any_value = λ x y. lift-Safe _ v.any_cb x y;
      };
    }

  -- However a walk ends, short of a crash, and whatever the callbacks do to the handle, the nodes
  -- that were started are distinct, and each of them had the bit of a valid block in the bitmap of
  -- the handle that the walk began with.
  pub visit_node-IsLog :
      (ic : Iconv) (node : ℕ) (v : Visitor S) (len : ℕ) (skip : Bool) (s : S) (h : Hive)
      → IsBitmap h.bitmap
      → Holds (IsLog h.bitmap) AnyEnd (visit_node ic node (logged v) len skip ([], s) h)
  unfolding visit_node
  visit_node-IsLog ic node v len skip s h bytes = by_memory (h.grants (1 + h.size / 32))
    where
      start : IsLog h.bitmap (start_walk ([], s) h)
      start = record { bytes = bytes; once = tt; marked = tt; valid = tt; fewer = λ n e. e }

      by_memory :
          (c : Bool)
          → Holds (IsLog h.bitmap) AnyEnd (
              if c
              then visit_node_loop ic
                  (copy_visitor len (logged v))
                  skip
                  (8 * (1 + h.size / 32) + 1)
                  node
                  (start_walk ([], s) h)
              else refused enomem (start_walk ([], s) h))
      by_memory true =
          visit_node_loop-Safe (IsLog h.bitmap) AnyEnd ic (copy_visitor len (logged v)) skip
            (logged-Obeys h.bitmap len v) _ node (start_walk ([], s) h) start
      by_memory false = at_refused start
