-- ===== src/Children/Laws.antt =====
-- The loops of `get_children` that succeed, taken apart.
use hivex.Base.{
  ℕ, zero, suc, ◌+◌, ◌<◌, ◌≡◌, refl, arith, Bool, true, List, [], ◌∷◌, ◌++◌, if◌then◌else◌, length,
  length-append, All, All-append, ap, sym, ◌∙◌,
}
use mathlib.Core.List.{append_assoc, append-nil}
use hivex.Hive.{Hive, efault, ok}
use hivex.Hive.Reader.{pure}
use hivex.Hive.Reader.Laws.{after, after_require, ok-injective}
use hivex.Hive.Bytes.{Image, get16, get32}
use hivex.Hive.Memory.Laws.{load16-eq-ok, load32-eq-ok}
use hivex.Layout.Lf
use hivex.Block.{is_valid_block, check_valid}
use hivex.Block.Laws.{check_valid-eq-ok}
use hivex.OffsetList.{OffsetList}
use hivex.OffsetList.Laws.{add-offsets}
use hivex.Children.{read_keys, ri_entry, count_keys, copy_keys}

abbrev pub IsValid : Hive → ℕ → Type 0
IsValid h o = is_valid_block h o ≡ true

-- The list that is collected, after the offsets `xs`: `added` with no 0, and valid if checked.
pub record Added (h : Hive) (check : Bool) (n : ℕ) (xs ys : List ℕ) : Type 0 where
  pub added : List ℕ
  pub joined : ys ≡ xs ++ added
  pub count : length added ≡ n
  pub positive : All (λ x. 0 < x) added
  pub valid : check ≡ true → All (IsValid h) added

module _ (h : Hive) (check : Bool) where
  pub Added-zero : (xs : List ℕ) → Added h check 0 xs xs
  Added-zero xs = record {
    added = [];
    joined = sym (append-nil xs);
    count = refl;
    positive = tt;
    valid = λ _. tt;
  }

  pub Added-trans :
      {n k m : ℕ} {xs ys zs : List ℕ}
      → n + k ≡ m
      → Added h check n xs ys
      → Added h check k ys zs
      → Added h check m xs zs
  Added-trans {xs} total a b = record {
    added = a.added ++ b.added;
    joined = b.joined ∙ ap (λ l. l ++ b.added) a.joined ∙ append_assoc xs a.added b.added;
    count = omega (arith, length-append a.added b.added, a.count, b.count);
    positive = All-append _ a.added b.added a.positive b.positive;
    valid = λ c. All-append _ a.added b.added (a.valid c) (b.valid c);
  }

  pub Added-one :
      {xs ys : List ℕ} (x : ℕ)
      → ys ≡ xs ++ (x ∷ [])
      → 0 < x
      → (check ≡ true → IsValid h x)
      → Added h check 1 xs ys
  Added-one x e p v = record {
    added = x ∷ [];
    joined = e;
    count = refl;
    positive = (p, tt);
    valid = λ c. (v c, tt);
  }

  checked-IsValid :
      (o : ℕ) {u : Unit {0}}
      → (if check then check_valid o efault else pure tt) h ≡ ok u
      → check ≡ true
      → IsValid h o
  checked-IsValid o e c = check_valid-eq-ok h o efault (rw c at e)

  pub read_keys-Added :
      (n o : ℕ) (l l' : OffsetList)
      → read_keys check n o l h ≡ ok l'
      → Added h check n l.offsets l'.offsets
  unfolding read_keys
  read_keys-Added zero o l l' e =
      let same : l ≡ l' = ok-injective e in rw (← same) (Added-zero l.offsets)
  read_keys-Added (suc n) o l l' e = after h _ _ e λ offset _ e1. after h _ _ e1 λ _ checked e2.
      after h _ _ e2 λ l₁ added e3.
        Added-trans (omega arith)
          (Added-one (offset + 0x1000) (add-offsets h l (offset + 0x1000) added) (omega arith)
            (checked-IsValid (offset + 0x1000) checked))
          (read_keys-Added n (o + 8) l₁ l' e3)

-- The number of keys of the lf records that `n` pointers from `o` on lead to.
unfoldable pub total_keys : Image → ℕ → ℕ → ℕ
total_keys m zero o = 0
total_keys m (suc n) o = get16 m (get32 m o + 0x1000 + Lf.nr_keys) + total_keys m n (o + 4)

module _ (h : Hive) where
  ri_entry-eq-ok :
      (o : ℕ) {v : ℕ} → ri_entry o h ≡ ok v → (v ≡ get32 h.mem o + 0x1000) × IsValid h v
  unfolding ri_entry
  ri_entry-eq-ok o e = after h _ _ e λ pointer read e1. after h _ _ e1 λ _ valid e2.
      after h _ _ e2 λ lf _ e3. after_require h _ _ _ e3 λ _ e4.
        let (_, word) = load32-eq-ok o h read in
        let same = ok-injective e4 in
        (omega arith, rw (← same) (check_valid-eq-ok h _ efault valid))

  pub count_keys-Added :
      (n o : ℕ) (l l' : OffsetList) (count count' : ℕ)
      → count_keys n o l count h ≡ ok (l', count')
      → Added h true n l.offsets l'.offsets × (count' ≡ count + total_keys h.mem n o)
  unfolding count_keys total_keys
  count_keys-Added zero o l l' count count' e = (
    (let same : l ≡ l' = ground (arith, ok-injective e) in
        rw (← same) (Added-zero h true l.offsets)),
    ground (arith, ok-injective e),
  )
  count_keys-Added (suc n) o l l' count count' e = after h _ _ e λ offset entry e1.
      after h _ _ e1 λ l₁ added e2. after h _ _ e2 λ nr_keys read e3.
        let (here, valid) = ri_entry-eq-ok o entry in
        let (_, keys) = load16-eq-ok _ h read in
        let (rest, total) = count_keys-Added n (o + 4) l₁ l' (count + nr_keys) count' e3 in
        (
          Added-trans h true (omega arith)
              (Added-one h true offset (add-offsets h l offset added) (omega arith) (λ _. valid))
              rest,
          ground (arith, here, keys, total),
        )

  pub copy_keys-Added :
      (check : Bool) (n o : ℕ) (l l' : OffsetList)
      → copy_keys check n o l h ≡ ok l'
      → Added h check (total_keys h.mem n o) l.offsets l'.offsets
  unfolding copy_keys total_keys
  copy_keys-Added check zero o l l' e =
      let same : l ≡ l' = ok-injective e in rw (← same) (Added-zero h check l.offsets)
  copy_keys-Added check (suc n) o l l' e = after h _ _ e λ offset entry e1.
      after h _ _ e1 λ nr_keys read e2. after h _ _ e2 λ l₁ keys e3.
        let (here, _) = ri_entry-eq-ok o entry in
        let (_, word) = load16-eq-ok _ h read in
        Added-trans h check (ground (arith, here, word))
          (read_keys-Added h check nr_keys (offset + Lf.keys) l l₁ keys)
          (copy_keys-Added check n (o + 4) l₁ l' e3)
