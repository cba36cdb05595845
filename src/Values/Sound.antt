-- ===== src/Values/Sound.antt =====
-- What a successful `get_values` returns.
use hivex.Base.{
  ℕ, zero, suc, ◌+◌, ◌≤◌, ◌≡◌, refl, arith, true, false, List, [], ◌==◌, leb, if◌then◌else◌, ap,
  Bool-cases, inl, inr, leb→le, ==_iff,
}
use hivex.Hive.{Hive, erange, ok}
use hivex.Hive.Reader.{◌>>◌, pure, require}
use hivex.Hive.Reader.Laws.{after, after_require, ok-injective}
use hivex.Hive.Bytes.{get32}
use hivex.Hive.Memory.Laws.{load32-eq-ok}
use hivex.Layout.{hivex_max_values}
use hivex.Layout.Nk
use hivex.Block.Laws.{check_valid-eq-ok, check_nk-eq-ok, IsBlock}
use hivex.OffsetList.{OffsetList, init_offset_list}
use hivex.OffsetList.Laws.{grow-offsets, add-offsets, return-offsets}
use hivex.Children.Laws.{Added, Added-zero, Added-one, Added-trans}
use hivex.Children.Sound.{IsTerminated, Added-IsTerminated}
use hivex.Values.{read_values, value_lists, get_values}

module _ (h : Hive) where
  read_values-Added :
      (n o : ℕ) (l l' : OffsetList)
      → read_values n o l h ≡ ok l'
      → Added h true n l.offsets l'.offsets
  unfolding read_values
  read_values-Added zero o l l' e =
      let same : l ≡ l' = ok-injective e in rw (← same) (Added-zero h true l.offsets)
  read_values-Added (suc n) o l l' e = after h _ _ e λ pointer _ e1. after h _ _ e1 λ _ valid e2.
      after h _ _ e2 λ l₁ added e3.
        Added-trans h true (omega arith)
          (Added-one h true (pointer + 0x1000) (add-offsets h l (pointer + 0x1000) added)
            (omega arith) (λ _. check_valid-eq-ok h (pointer + 0x1000) _ valid))
          (read_values-Added n (o + 4) l₁ l' e3)

-- The arrays built for a node with `n` values, and no or one value list.
record IsListed (h : Hive) (n : ℕ) (lists : OffsetList × OffsetList) : Type 0 where
  values : Added h true n [] lists.0.offsets
  nr_blocks : ℕ
  blocks : Added h true nr_blocks [] lists.1.offsets
  one_block : nr_blocks ≡ (if n == 0 then 0 else 1)

module _ (h : Hive) (node n : ℕ) where
  value_lists-IsListed :
      (lists : OffsetList × OffsetList)
      → (n == 0) ≡ false
      → value_lists node n h ≡ ok lists
      → IsListed h n lists
  unfolding value_lists
  value_lists-IsListed lists some_left e = after h _ _ e λ l grown e1.
      after h _ _ e1 λ pointer read e2. after h _ _ e2 λ _ valid e3. after h _ _ e3 λ bs added e4.
        after h _ _ e4 λ (len, used) seg e5. after_require h _ _ _ e5 λ fits e6.
          after h _ _ e6 λ vs listed e7.
            let made = ok-injective e7 in
            let start = grow-offsets h init_offset_list n grown in
            let all = read_values-Added h n _ l vs listed in
            rw (← made) (record {
              values = rw start at all;
              nr_blocks = 1;
              blocks =
                  Added-one h true (pointer + 0x1000)
                    (add-offsets h init_offset_list (pointer + 0x1000) added) (omega arith)
                    (λ _. check_valid-eq-ok h (pointer + 0x1000) _ valid);
              one_block = rw some_left refl;
            })

-- What `get_values` returns for a node.
pub record IsValues (h : Hive) (node : ℕ) (values blocks : List ℕ) : Type 0 where
  pub node_is : IsBlock h node b'n' b'k'
  pub limit : get32 h.mem (node + Nk.nr_values) ≤ hivex_max_values
  pub values_are : IsTerminated h true (get32 h.mem (node + Nk.nr_values)) values
  pub blocks_are :
      IsTerminated h true (if get32 h.mem (node + Nk.nr_values) == 0 then 0 else 1) blocks

pub get_values-IsValues :
    (h : Hive) (node : ℕ) (values blocks : List ℕ)
    → get_values node h ≡ ok (values, blocks)
    → IsValues h node values blocks
unfolding get_values
get_values-IsValues h node values blocks e = after h _ _ e λ _ is_nk e1. after h _ _ e1 λ n read e2.
    after h _ _ e2 λ (vl, bl) made e3. after h _ _ e3 λ vs returned e4.
      after h _ _ e4 λ bs returned' e5.
        let (_, word) = load32-eq-ok _ h read in
        let (limit, l) = lists_listed n (vl, bl) made in
        let v = Added-IsTerminated h true n l.values (return-offsets h vl returned) in
        let b = Added-IsTerminated h true l.nr_blocks l.blocks (return-offsets h bl returned') in
        let pair = ok-injective e5 in
        let same_v : vs ≡ values = ap (λ (p : List ℕ × List ℕ). p.0) pair in
        let same_b : bs ≡ blocks = ap (λ (p : List ℕ × List ℕ). p.1) pair in
        record {
          node_is = check_nk-eq-ok h node is_nk;
          limit = rw word at limit;
          values_are = rw (← word, ← same_v) v;
          blocks_are = rw (← word, ← same_b, ← l.one_block) b;
        }
  where
    lists_listed :
        (n : ℕ) (l : OffsetList × OffsetList)
        → (if n == 0
              then pure (init_offset_list, init_offset_list)
              else (do require (leb n hivex_max_values) erange; value_lists node n))
            h
          ≡ ok l
        → (n ≤ hivex_max_values) × IsListed h n l
    lists_listed n l p = elim (Bool-cases (n == 0)) [
      | inl none_left ↦
          let zero_is : n ≡ 0 = (==_iff n 0).0 none_left in
          let same = ok-injective (rw none_left at p) in
          (
            omega arith,
            rw (← same, zero_is)
                (record {
                  values = Added-zero h true [];
                  nr_blocks = 0;
                  blocks = Added-zero h true [];
                  one_block = refl;
                }),
          )
      | inr some_left ↦
          after_require h _ _ _ (rw some_left at p)
            λ few q. (leb→le _ _ few, value_lists-IsListed h node n l some_left q)
    ]
