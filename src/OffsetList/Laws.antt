-- ===== src/OffsetList/Laws.antt =====
-- An offset list is an appended list; its growth and its terminator do not show.
use hivex.Base.{
  ℕ, ◌*◌, ◌<◌, ◌≡◌, refl, arith, List, [], ◌∷◌, ◌++◌, leb, ◌==◌, if◌then◌else◌, length, All,
  Bool-cases, inl, inr, ap, ◌∙◌, sym,
}
use hivex.Hive.{Hive, ok}
use hivex.Hive.Reader.{pure}
use hivex.Hive.Reader.Laws.{after, ok-injective}
use hivex.OffsetList.{
  OffsetList, grow_offset_list, add_to_offset_list, return_offset_list, until_zero,
}

module _ (h : Hive) where
  pub grow-offsets :
      (l : OffsetList) (n : ℕ) {l' : OffsetList}
      → grow_offset_list l n h ≡ ok l'
      → l'.offsets ≡ l.offsets
  unfolding grow_offset_list
  grow-offsets l n e =
      after h _ _ e λ _ _ e1.
        after h _ _ e1 λ _ _ e2. ap (λ (r : OffsetList). r.offsets) (sym (ok-injective e2))

  pub add-offsets :
      (l : OffsetList) (o : ℕ) {l' : OffsetList}
      → add_to_offset_list l o h ≡ ok l'
      → l'.offsets ≡ l.offsets ++ (o ∷ [])
  unfolding add_to_offset_list
  add-offsets l o e = after h _ _ e λ l₁ grown e1.
      ap (λ (r : OffsetList). r.offsets) (sym (ok-injective e1))
      ∙ ap (λ xs. xs ++ (o ∷ [])) (room l₁ grown)
    where
      room :
          (l₁ : OffsetList)
          → (if leb l.alloc (length l.offsets)
                then grow_offset_list l (if l.alloc == 0 then 4 else l.alloc * 2)
                else pure l)
              h
            ≡ ok l₁
          → l₁.offsets ≡ l.offsets
      room l₁ g = elim (Bool-cases (leb l.alloc (length l.offsets))) [
        | inl full ↦ grow-offsets l _ (rw full at g)
        | inr space ↦ ap (λ (r : OffsetList). r.offsets) (sym (ok-injective (rw space at g)))
      ]

  pub return-offsets :
      (l : OffsetList) {xs : List ℕ} → return_offset_list l h ≡ ok xs → xs ≡ l.offsets ++ (0 ∷ [])
  unfolding return_offset_list
  return-offsets l e = after h _ _ e λ l₁ added e1. sym (ok-injective e1) ∙ add-offsets l 0 added

-- A caller's loop over a terminated list runs over the whole list, if there is no 0 in it.
pub until_zero-append : (xs : List ℕ) → All (λ x. 0 < x) xs → until_zero (xs ++ (0 ∷ [])) ≡ xs
unfolding until_zero
until_zero-append [] p = refl
until_zero-append (x ∷ xs) (p, ps) = ground (arith, until_zero-append xs ps)
