-- ===== src/AddChild/Position.antt =====
-- Where `hivex_node_add_child` inserts a key into an lf or lh record.
use Prim.Native.Nat.{Ordering}
use hivex.Base.{
  refl, sym, ap, ◌∙◌, Bool, true, false, ℕ, zero, suc, ◌+◌, ◌*◌, ◌<◌, ◌≡◌, ◌≢◌, arith, Option, none,
  some, List,
}
use hivex.Hive.{Hive, Errno, Result, ok, err, trap, Read}
use hivex.Hive.Reader.{◌>>=◌, pure, assert}
use hivex.Hive.Reader.Laws.{after, step, ok-injective}
use hivex.Hive.Bytes.{get32}
use hivex.Hive.Memory.{load32}
use hivex.Hive.Memory.Laws.{load32-eq-ok}
use hivex.Block.Laws.{IsBlock}
use hivex.CString.{c_string}
use hivex.CString.Order.{Before, strcasecmp-Before, Before-strcasecmp}
use hivex.Node.{node_name}
use hivex.AddChild.{name_order, compare_name_with_nk_name, find_key}

assert-eq-ok : (h : Hive) (b : Bool) {u : Unit {0}} → assert b h ≡ ok u → b ≡ true
unfolding assert
assert-eq-ok h true e = refl
assert-eq-ok h false e = absurd (cc)

-- How the new name compares with that of the node whose key stands at `o`.
order_at : List ℕ → ℕ → Read Ordering
order_at name o h = (load32 o >>= λ offset. compare_name_with_nk_name name (offset + 0x1000)) h

-- The node of the key at `o`.
abbrev pub node_at : Hive → ℕ → ℕ
node_at h o = get32 h.mem o + 0x1000

-- The new name comes before that of the key at `o`.
pub record IsAhead (h : Hive) (name : List ℕ) (o : ℕ) : Type 0 where
  pub node_is : IsBlock h (node_at h o) b'n' b'k'
  pub nname : List ℕ
  pub name_is : node_name (node_at h o) h ≡ ok nname
  pub before : Before (c_string name) (c_string nname)

-- The name of a node can be read, and the new name does not come before it, or it cannot be read.
pub data IsAfter (h : Hive) (name : List ℕ) (node : ℕ) : Type 0 where
  readable :
      (nname : List ℕ)
      → node_name node h ≡ ok nname
      → ¬ Before (c_string name) (c_string nname)
      → IsAfter h name node
  unreadable : (e : Errno) → node_name node h ≡ err e → IsAfter h name node

-- The new name does not come before that of the key at `o`.
pub record IsBehind (h : Hive) (name : List ℕ) (o : ℕ) : Type 0 where
  pub node_is : IsBlock h (node_at h o) b'n' b'k'
  pub not_before : IsAfter h name (node_at h o)

-- Of the `n` keys from `o` on, the `i`-th is the first one that the new name comes before.
pub record IsPosition (h : Hive) (name : List ℕ) (n o i : ℕ) : Type 0 where
  pub inside : i < n
  pub lower : IsAhead h name (o + 8 * i)
  pub others : (k : ℕ) → k < i → IsBehind h name (o + 8 * k)

-- The answer of the search.
pub data IsFound (h : Hive) (name : List ℕ) (n j o : ℕ) : Option ℕ → Type 0 where
  at_end : ((k : ℕ) → k < n → IsBehind h name (o + 8 * k)) → IsFound h name n j o none
  at_key : (i : ℕ) → IsPosition h name n o i → IsFound h name n j o (some (j + i))

module _ (h : Hive) (name : List ℕ) where
  -- What the comparison says of the key.
  order_at-inverted :
      (o : ℕ) (q : Ordering)
      → order_at name o h ≡ ok q
      → IsBlock h (node_at h o) b'n' b'k' × (name_order name (node_name (node_at h o) h) ≡ ok q)
  unfolding order_at compare_name_with_nk_name
  order_at-inverted o q e = after h _ _ e λ offset read e1.
      let (_, word) = load32-eq-ok _ h read in
      rw (← word) (
        after h _ _ e1 λ _ valid e2. after h _ _ e2 λ nk id e3. after h _ _ e3 λ _ is_nk e4.
          let yes : nk ≡ true = assert-eq-ok h nk is_nk in
          (record { valid = assert-eq-ok h _ valid; id = id ∙ ap ok yes }, e4))

  before-IsAhead : (o : ℕ) → order_at name o h ≡ ok Ordering.lt → IsAhead h name o
  unfolding name_order
  before-IsAhead o e = by_name (node_name (node_at h o) h) refl (order_at-inverted o Ordering.lt e)
    where
      by_name :
          (r : Result (List ℕ))
          → node_name (node_at h o) h ≡ r
          → IsBlock h (node_at h o) b'n' b'k' × (name_order name r ≡ ok Ordering.lt)
          → IsAhead h name o
      by_name (ok nname) p (node_is, q) = record {
        node_is = node_is;
        nname = nname;
        name_is = p;
        before = strcasecmp-Before name nname (ok-injective q);
      }
      by_name (err e) p (node_is, q) = absurd (cc (ok-injective q))
      by_name (trap t) p (node_is, q) = absurd (cc)

  other-IsBehind :
      (o : ℕ) (q : Ordering) → q ≢ Ordering.lt → order_at name o h ≡ ok q → IsBehind h name o
  unfolding name_order
  other-IsBehind o q not_lt e = by_name (node_name (node_at h o) h) refl (order_at-inverted o q e)
    where
      by_name :
          (r : Result (List ℕ))
          → node_name (node_at h o) h ≡ r
          → IsBlock h (node_at h o) b'n' b'k' × (name_order name r ≡ ok q)
          → IsBehind h name o
      by_name (ok nname) p (node_is, c) = record {
        node_is = node_is;
        not_before =
            readable nname p λ b. not_lt (sym (ok-injective c) ∙ Before-strcasecmp name nname b);
      }
      by_name (err e) p (node_is, c) = record { node_is = node_is; not_before = unreadable e p }
      by_name (trap t) p (node_is, c) = absurd (cc)

  IsBehind-suc :
      (o n : ℕ)
      → IsBehind h name o
      → ((k : ℕ) → k < n → IsBehind h name (o + 8 + 8 * k))
      → (k : ℕ) → k < suc n
      → IsBehind h name (o + 8 * k)
  IsBehind-suc o n first rest zero lt = let here : o + 8 * 0 ≡ o = omega arith in rw here first
  IsBehind-suc o n first rest (suc k) lt =
      let there : o + 8 * suc k ≡ o + 8 + 8 * k = omega arith in rw there (rest k (omega arith))

  IsFound-suc :
      (n j o : ℕ) {r : Option ℕ}
      → IsBehind h name o
      → IsFound h name n (j + 1) (o + 8) r
      → IsFound h name (suc n) j o r
  IsFound-suc n j o first (at_end all) = at_end (IsBehind-suc o n first all)
  IsFound-suc n j o first (at_key i p) =
      let index : j + 1 + i ≡ j + suc i = omega arith in
      let there : o + 8 * suc i ≡ o + 8 + 8 * i = omega arith in
      rw index (
        at_key (suc i) (record {
          inside = omega (arith, p.inside);
          lower = rw there p.lower;
          others = IsBehind-suc o i first p.others;
        }))

  IsFound-here : (n j o : ℕ) → IsAhead h name o → IsFound h name (suc n) j o (some j)
  IsFound-here n j o e =
      let here : o + 8 * 0 ≡ o = omega arith in
      let index : j + 0 ≡ j = omega arith in
      let found : IsFound h name (suc n) j o (some (j + 0)) = at_key 0 (record {
        inside = omega arith;
        lower = rw here e;
        others = λ k lt. absurd (omega arith);
      }) in
      rw index at found

-- When the search of an lf or lh record succeeds, it returns the position of the first key whose
-- name can be read and comes after the new one, in the order of a dictionary without regard to case,
-- or nothing if there is none. Every key before it, or every key, leads to a valid nk record whose
-- name does not come after the new one, or cannot be read; and so does the key that is found.
pub find_key-IsFound :
    (h : Hive) (name : List ℕ) (n j o : ℕ) (r : Option ℕ)
    → find_key name n j o h ≡ ok r
    → IsFound h name n j o r
unfolding find_key order_at
find_key-IsFound h name zero j o r e =
    let none_left = ok-injective e in rw (← none_left) (at_end (λ k lt. absurd (omega arith)))
find_key-IsFound h name (suc n) j o r e = after h _ _ e λ offset read e1.
    after h _ _ e1 λ order compared e2.
      by_order order (step h _ _ read compared) (find_key-IsFound h name n (j + 1) (o + 8) r) e2
  where
    by_order :
        (q : Ordering)
        → order_at name o h ≡ ok q
        → (find_key name n (j + 1) (o + 8) h ≡ ok r → IsFound h name n (j + 1) (o + 8) r)
        → (elim q as (λ q'. Read (Option ℕ)) [
          | Ordering.lt ↦ pure (some j)
          | _ ↦ find_key name n (j + 1) (o + 8)
        ])
            h
          ≡ ok r
        → IsFound h name (suc n) j o r
    by_order Ordering.lt p rest q =
        let found = ok-injective q in
        rw (← found) (IsFound-here h name n j o (before-IsAhead h name o p))
    by_order Ordering.eq p rest q =
        IsFound-suc h name n j o (other-IsBehind h name o Ordering.eq (λ x. cc) p) (rest q)
    by_order Ordering.gt p rest q =
        IsFound-suc h name n j o (other-IsBehind h name o Ordering.gt (λ x. cc) p) (rest q)
