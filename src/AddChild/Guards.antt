-- ===== src/AddChild/Guards.antt =====
-- When `hivex_node_add_child` may succeed.
use hivex.Base.{
  ℕ, ◌≡◌, ◌<◌, refl, arith, Bool, true, not, Option, none, some, List, ◌==◌, length, sym, ◌∙◌,
}
use hivex.Hive.{Hive, Result, ok, err, trap, done}
use hivex.Hive.Writer.Invert.{after, require-eq-done, get-eq-done, done-injective}
use hivex.Block.Laws.{IsBlock, check_nk-eq-ok}
use hivex.Children.{node_get_child}
use hivex.AddChild.{child_exists, check_add, node_add_child}

-- The name can be added to the parent.
pub record IsAddable (h : Hive) (parent : ℕ) (name? : Option (List ℕ)) : Type 0 where
  pub writable : h.writable ≡ true
  pub parent_is : IsBlock h parent b'n' b'k'
  pub name : List ℕ
  pub name_is : name? ≡ some name
  pub not_empty : 0 < length name
  pub absent : (c : ℕ) → node_get_child parent name h ≡ ok c → c ≡ 0

positive : (n : ℕ) → not (n == 0) ≡ true → 0 < n
positive n e = ground arith

absent_from :
    (r : Result ℕ) (b : Bool) → child_exists r ≡ ok b → not b ≡ true → (c : ℕ) → r ≡ ok c → c ≡ 0
unfolding child_exists
absent_from (ok d) b e n c p = ground arith
absent_from (err x) b e n c p = absurd (cc)
absent_from (trap t) b e n c p = absurd (cc)

module _ (h : Hive) (parent : ℕ) where
  check_add-IsAddable :
      (name? : Option (List ℕ)) (x : List ℕ) (g : Hive)
      → check_add parent name? h ≡ done x g
      → IsAddable h parent name?
  unfolding check_add
  check_add-IsAddable none x g e =
      after h _ _ e
        λ w h1 e1 k1. after h1 _ _ k1 λ _ h2 e2 k2. after h2 _ _ k2 λ _ h3 e3 k3. absurd (cc)
  check_add-IsAddable (some name) x g e = after h _ _ e λ w h1 e1 k1. after h1 _ _ k1 λ _ h2 e2 k2.
      after h2 _ _ k2 λ _ h3 e3 k3. after h3 _ _ k3 λ _ h4 e4 k4. after h4 _ _ k4 λ b h5 e5 k5.
        after h5 _ _ k5 λ _ h6 e6 k6.
          let (same_w, s1) = done-injective e1 in
          let (w2, s2) = require-eq-done h1 _ _ e2 in
          let (nk, s3) = get-eq-done h2 _ e3 in
          let (filled, s4) = require-eq-done h3 _ _ e4 in
          let (exists, s5) = get-eq-done h4 _ e5 in
          let (fresh, s6) = require-eq-done h5 _ _ e6 in
          let at2 : h2 ≡ h = sym (s1 ∙ s2) in
          let at4 : h4 ≡ h = sym (s1 ∙ s2 ∙ s3 ∙ s4) in
          record {
            writable = same_w ∙ w2;
            parent_is = check_nk-eq-ok h parent (rw at2 at nk);
            name = name;
            name_is = refl;
            not_empty = positive (length name) filled;
            absent = absent_from _ b (rw at4 at exists) fresh;
          }

-- `hivex_node_add_child` succeeds only on a writable handle, for a parent that is a valid nk
-- record, and for a name that is given and not empty, and that no child has, unless the lookup
-- of the name fails.
pub node_add_child-IsAddable :
    (h : Hive) (parent : ℕ) (name? : Option (List ℕ)) (node : ℕ) (h' : Hive)
    → node_add_child parent name? h ≡ done node h'
    → IsAddable h parent name?
unfolding node_add_child
node_add_child-IsAddable h parent name? node h' e =
    after h _ _ e λ name h1 e1 k1. check_add-IsAddable h parent name? name h1 e1
