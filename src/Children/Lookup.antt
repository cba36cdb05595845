-- ===== src/Children/Lookup.antt =====
-- What a successful lookup by name returns.
use hivex.Base.{
  ℕ, ◌≡◌, refl, Bool, true, false, List, [], ◌∷◌, ◌++◌, ◌==◌, All, ap, sym, Bool-cases, ◌⊎◌, inl,
  inr,
}
use hivex.Hive.{Hive, ok, Read}
use hivex.Hive.Reader.Laws.{after, ok-injective}
use hivex.OffsetList.{until_zero}
use hivex.CString.{strcaseeq}
use hivex.Node.{node_name}
use hivex.Children.{get_children, node_children, find_child, node_get_child}

-- `o` has a name that is not, or is, the one that is looked up.
pub record IsNamed (h : Hive) (name : ℕ → Read (List ℕ)) (key : List ℕ) (fits : Bool) (o : ℕ)
    : Type 0 where
  pub own : List ℕ
  pub own_is : name o h ≡ ok own
  pub compared : strcaseeq own key ≡ fits

-- Among the offsets, `o` is the first one of the name.
pub record IsFirst (h : Hive) (name : ℕ → Read (List ℕ)) (key : List ℕ) (os : List ℕ) (o : ℕ)
    : Type 0 where
  pub before : List ℕ
  pub behind : List ℕ
  pub split : os ≡ before ++ (o ∷ behind)
  pub others : All (IsNamed h name key false) before
  pub fits : IsNamed h name key true o

abbrev pub LookedUp : Hive → (ℕ → Read (List ℕ)) → List ℕ → List ℕ → ℕ → Type 0
LookedUp h name key os r = ((r ≡ 0) × All (IsNamed h name key false) os) ⊎ IsFirst h name key os r

module _ (h : Hive) (name : ℕ → Read (List ℕ)) (key : List ℕ) where
  pub LookedUp-suc :
      (o : ℕ) (os : List ℕ) {r : ℕ}
      → IsNamed h name key false o
      → LookedUp h name key os r
      → LookedUp h name key (o ∷ os) r
  LookedUp-suc o os n (inl (e, all)) = inl (e, (n, all))
  LookedUp-suc o os n (inr f) = inr (record {
    before = o ∷ f.before;
    behind = f.behind;
    split = ap (λ l. o ∷ l) f.split;
    others = (n, f.others);
    fits = f.fits;
  })

  pub LookedUp-zero :
      (o : ℕ) (os : List ℕ) → IsNamed h name key true o → LookedUp h name key (o ∷ os) o
  LookedUp-zero o os n =
      inr (record { before = []; behind = os; split = refl; others = tt; fits = n })

module _ (h : Hive) (nname : List ℕ) where
  find_child-LookedUp :
      (os : List ℕ) (r : ℕ)
      → find_child nname os h ≡ ok r
      → LookedUp h node_name nname (until_zero os) r
  unfolding find_child until_zero
  find_child-LookedUp [] r e = inl (sym (ok-injective e), tt)
  find_child-LookedUp (o ∷ os) r e = elim (Bool-cases (o == 0)) [
    | inl last ↦ rw last (inl (sym (ok-injective (rw last at e)), tt))
    | inr more ↦ after h _ _ (rw more at e) λ own read e1.
        rw more (elim (Bool-cases (strcaseeq own nname)) [
          | inl same ↦
              let found : o ≡ r = ok-injective (rw same at e1) in
              rw (← found) (
                LookedUp-zero h node_name nname o (until_zero os)
                  (record { own = own; own_is = read; compared = same }))
          | inr other ↦
              LookedUp-suc h node_name nname o (until_zero os)
                (record { own = own; own_is = read; compared = other })
                (find_child-LookedUp os r (rw other at e1))
        ])
  ]

-- When `hivex_node_get_child` succeeds, so did `get_children` for the node. The result is 0 if no
-- child has the name, in whatever case, and otherwise it is the first child that has it; every child
-- before it has a name that can be read.
pub node_get_child-LookedUp :
    (h : Hive) (node : ℕ) (nname : List ℕ) (r : ℕ)
    → node_get_child node nname h ≡ ok r
    → (children : List ℕ) × (blocks : List ℕ) × (get_children true node h ≡ ok (children, blocks))
      × LookedUp h node_name nname (until_zero children) r
unfolding node_get_child node_children
node_get_child-LookedUp h node nname r e = after h _ _ e λ children listed e1.
    after h _ _ listed λ (cs, bs) got e2.
      let same : cs ≡ children = ok-injective e2 in
      (cs, bs, got, find_child-LookedUp h nname cs r (rw (← same) at e1))
