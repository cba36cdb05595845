-- ===== src/Children/Sound.antt =====
-- What a successful `get_children` returns.
use hivex.Base.{
  ℕ, ◌+◌, ◌≤◌, ◌≡◌, refl, arith, Bool, true, false, List, [], ◌∷◌, ◌++◌, ◌==◌, leb, if◌then◌else◌,
  length, All, ap, ◌∙◌, Bool-cases, inl, inr, leb→le, ==_iff,
}
use hivex.Hive.{Hive, enotsup, erange, ok}
use hivex.Hive.Reader.{◌>>◌, pure, throw, require}
use hivex.Hive.Reader.Laws.{after, after_require, ok-injective}
use hivex.Hive.Bytes.{get32}
use hivex.Hive.Memory.Laws.{load32-eq-ok}
use hivex.Layout.{hivex_max_subkeys}
use hivex.Layout.Nk
use hivex.Layout.Ri
use hivex.Block.Laws.{check_valid-eq-ok, check_nk-eq-ok, IsBlock}
use hivex.OffsetList.{OffsetList, init_offset_list, until_zero}
use hivex.OffsetList.Laws.{grow-offsets, add-offsets, return-offsets, until_zero-append}
use hivex.Children.{Lists, lf_children, ri_children, subkey_lists, get_children}
use hivex.Children.Laws.{
  IsValid, Added, Added-zero, Added-one, Added-trans, read_keys-Added, count_keys-Added,
  copy_keys-Added, total_keys,
}

-- The lists built for a node: `n` children, and valid intermediate blocks.
record Built (h : Hive) (check : Bool) (n : ℕ) (from to : Lists) : Type 0 where
  children : Added h check n from.children.offsets to.children.offsets
  nr_blocks : ℕ
  blocks : Added h true nr_blocks from.blocks.offsets to.blocks.offsets

module _ (h : Hive) (check : Bool) (n : ℕ) where
  lf_children-Built :
      (lf : ℕ) (l l' : Lists) → lf_children check n lf l h ≡ ok l' → Built h check n l l'
  unfolding lf_children
  lf_children-Built lf l l' e = after h _ _ e λ nr_keys _ e1. after_require h _ _ _ e1 λ same e2.
      after h _ _ e2 λ (len, used) _ e3. after_require h _ _ _ e3 λ fits e4.
        after h _ _ e4 λ children keys e5.
          let made = ok-injective e5 in
          let same' : n ≡ nr_keys = (==_iff n nr_keys).0 same in
          rw (← made) (record {
            children = rw same' (read_keys-Added h check nr_keys _ l.children children keys);
            nr_blocks = 0;
            blocks = Added-zero h true l.blocks.offsets;
          })

  ri_children-Built :
      (ri : ℕ) (l l' : Lists) → ri_children check n ri l h ≡ ok l' → Built h check n l l'
  unfolding ri_children
  ri_children-Built ri l l' e = after h _ _ e λ nr_offsets _ e1.
      after h _ _ e1 λ (blocks, count) counted e2. after_require h _ _ _ e2 λ same e3.
        after h _ _ e3 λ children copied e4.
          let made = ok-injective e4 in
          let (noted, total) = count_keys-Added h nr_offsets _ l.blocks blocks 0 count counted in
          let same' : n ≡ total_keys h.mem nr_offsets (ri + Ri.offset) =
            omega (arith, (==_iff n count).0 same, total) in
          rw (← made) (record {
            children = rw same' (copy_keys-Added h check nr_offsets _ l.children children copied);
            nr_blocks = nr_offsets;
            blocks = noted;
          })

  -- The block that the node points to is noted before its record is read.
  subkey_lists-Built :
      (node : ℕ) (l' : Lists)
      → subkey_lists check node n h ≡ ok l'
      → Built h check n (record { children = init_offset_list; blocks = init_offset_list }) l'
  unfolding subkey_lists
  subkey_lists-Built node l' e = after h _ _ e λ children grown e1. after h _ _ e1 λ pointer _ e2.
      after h _ _ e2 λ _ valid e3. after h _ _ e3 λ blocks added e4. after h _ _ e4 λ lf _ e5.
        after h _ _ e5 λ ri _ e6.
          let valid' = check_valid-eq-ok h (pointer + 0x1000) _ valid in
          let first =
            Added-one h true (pointer + 0x1000)
              (add-offsets h init_offset_list (pointer + 0x1000) added) (omega arith)
              (λ _. valid') in
          join children blocks (grow-offsets h init_offset_list n grown) first (
            record_built lf ri (pointer + 0x1000) (record { children = children; blocks = blocks })
              l' e6)
    where
      record_built :
          (lf ri : Bool) (o : ℕ) (l l' : Lists)
          → (if lf
                then lf_children check n o l
                else if ri
                then ri_children check n o l
                else throw enotsup)
              h
            ≡ ok l'
          → Built h check n l l'
      record_built true ri o l l' p = lf_children-Built o l l' p
      record_built false true o l l' p = ri_children-Built o l l' p
      record_built false false o l l' p = cc

      join :
          (children blocks : OffsetList)
          → children.offsets ≡ []
          → Added h true 1 [] blocks.offsets
          → Built h check n (record { children = children; blocks = blocks }) l'
          → Built h check n (record { children = init_offset_list; blocks = init_offset_list }) l'
      join children blocks empty first b = record {
        children = rw empty at b.children;
        nr_blocks = 1 + b.nr_blocks;
        blocks = Added-trans h true refl first b.blocks;
      }

-- A terminated list of `count` offsets, which are valid if they were checked.
pub record IsTerminated (h : Hive) (check : Bool) (count : ℕ) (xs : List ℕ) : Type 0 where
  pub terminated : xs ≡ until_zero xs ++ (0 ∷ [])
  pub count_is : length (until_zero xs) ≡ count
  pub valid : check ≡ true → All (IsValid h) (until_zero xs)

pub Added-IsTerminated :
    (h : Hive) (check : Bool) (n : ℕ) {xs ys : List ℕ}
    → Added h check n [] ys
    → xs ≡ ys ++ (0 ∷ [])
    → IsTerminated h check n xs
Added-IsTerminated h check n {xs} a e =
    let all : xs ≡ a.added ++ (0 ∷ []) = e ∙ ap (λ l. l ++ (0 ∷ [])) a.joined in
    let cut : until_zero xs ≡ a.added = ap until_zero all ∙ until_zero-append a.added a.positive in
    record { terminated = rw cut all; count_is = rw cut a.count; valid = λ c. rw cut (a.valid c) }

-- What `get_children` returns for a node.
pub record IsChildren (h : Hive) (check : Bool) (node : ℕ) (children blocks : List ℕ) : Type 0 where
  pub node_is : IsBlock h node b'n' b'k'
  pub limit : get32 h.mem (node + Nk.nr_subkeys) ≤ hivex_max_subkeys
  pub subkeys : IsTerminated h check (get32 h.mem (node + Nk.nr_subkeys)) children
  pub nr_blocks : ℕ
  pub intermediate : IsTerminated h true nr_blocks blocks

-- When `get_children` succeeds, the node is a valid nk record, the first array holds as many
-- children as the record says, 15000 at most, with none cut off by the 0 at the end, and, unless
-- the check is off, each a valid block; the second array holds valid blocks only.
pub get_children-IsChildren :
    (h : Hive) (check : Bool) (node : ℕ) (children blocks : List ℕ)
    → get_children check node h ≡ ok (children, blocks)
    → IsChildren h check node children blocks
unfolding get_children
get_children-IsChildren h check node children blocks e = after h _ _ e λ _ is_nk e1.
    after h _ _ e1 λ n read e2. after h _ _ e2 λ lists made e3. after h _ _ e3 λ cs returned e4.
      after h _ _ e4 λ bs returned' e5.
        let (_, word) = load32-eq-ok _ h read in
        let (limit, built) = lists_built n lists made in
        let c =
          Added-IsTerminated h check n built.children (return-offsets h lists.children returned) in
        let b =
          Added-IsTerminated h true built.nr_blocks built.blocks
            (return-offsets h lists.blocks returned') in
        let pair = ok-injective e5 in
        let same_c : cs ≡ children = ap (λ (p : List ℕ × List ℕ). p.0) pair in
        let same_b : bs ≡ blocks = ap (λ (p : List ℕ × List ℕ). p.1) pair in
        record {
          node_is = check_nk-eq-ok h node is_nk;
          limit = rw word at limit;
          subkeys = rw (← word, ← same_c) c;
          nr_blocks = built.nr_blocks;
          intermediate = rw (← same_b) b;
        }
  where
    lists_built :
        (n : ℕ) (l : Lists)
        → (if n == 0
              then pure (record { children = init_offset_list; blocks = init_offset_list })
              else (do require (leb n hivex_max_subkeys) erange; subkey_lists check node n))
            h
          ≡ ok l
        → (n ≤ hivex_max_subkeys)
          × Built h check n (record { children = init_offset_list; blocks = init_offset_list }) l
    lists_built n l p = elim (Bool-cases (n == 0)) [
      | inl none_left ↦
          let zero_is : n ≡ 0 = (==_iff n 0).0 none_left in
          let same = ok-injective (rw none_left at p) in
          (
            omega arith,
            rw (← same, zero_is)
                (record {
                  children = Added-zero h check [];
                  nr_blocks = 0;
                  blocks = Added-zero h true [];
                }),
          )
      | inr some_left ↦
          after_require h _ _ _ (rw some_left at p)
            λ few q. (leb→le _ _ few, subkey_lists-Built h check n node l q)
    ]
