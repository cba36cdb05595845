-- ===== src/Values/Lookup.antt =====
-- What a successful lookup of a value by key returns.
use hivex.Base.{ℕ, ◌≡◌, List, [], ◌∷◌, ◌==◌, sym, Bool-cases, inl, inr}
use hivex.Hive.{Hive, ok}
use hivex.Hive.Reader.Laws.{after, ok-injective}
use hivex.OffsetList.{until_zero}
use hivex.CString.{strcaseeq}
use hivex.Children.Lookup.{LookedUp, LookedUp-suc, LookedUp-zero}
use hivex.Value.{value_key}
use hivex.Values.{get_values, node_values, find_value, node_get_value}

module _ (h : Hive) (key : List ℕ) where
  find_value-LookedUp :
      (os : List ℕ) (r : ℕ)
      → find_value key os h ≡ ok r
      → LookedUp h value_key key (until_zero os) r
  unfolding find_value until_zero
  find_value-LookedUp [] r e = inl (sym (ok-injective e), tt)
  find_value-LookedUp (o ∷ os) r e = elim (Bool-cases (o == 0)) [
    | inl last ↦ rw last (inl (sym (ok-injective (rw last at e)), tt))
    | inr more ↦ after h _ _ (rw more at e) λ own read e1.
        rw more (elim (Bool-cases (strcaseeq own key)) [
          | inl same ↦
              let found : o ≡ r = ok-injective (rw same at e1) in
              rw (← found) (
                LookedUp-zero h value_key key o (until_zero os)
                  (record { own = own; own_is = read; compared = same }))
          | inr other ↦
              LookedUp-suc h value_key key o (until_zero os)
                (record { own = own; own_is = read; compared = other })
                (find_value-LookedUp os r (rw other at e1))
        ])
  ]

-- When `hivex_node_get_value` succeeds, so did `get_values` for the node. The result is 0 if no
-- value has the key, in whatever case, and otherwise it is the first value that has it; every value
-- before it has a key that can be read.
pub node_get_value-LookedUp :
    (h : Hive) (node : ℕ) (key : List ℕ) (r : ℕ)
    → node_get_value node key h ≡ ok r
    → (values : List ℕ) × (blocks : List ℕ) × (get_values node h ≡ ok (values, blocks))
      × LookedUp h value_key key (until_zero values) r
unfolding node_get_value node_values
node_get_value-LookedUp h node key r e = after h _ _ e λ values listed e1.
    after h _ _ listed λ (vs, bs) got e2.
      let same : vs ≡ values = ok-injective e2 in
      (vs, bs, got, find_value-LookedUp h key vs r (rw (← same) at e1))
