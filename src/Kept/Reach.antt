-- ===== src/Kept/Reach.antt =====
-- What holds of a handle after any sequence of calls that may write to it.
use hivex.Base.{ℕ, ◌≡◌, ◌≤◌, true, false, Option, none, some, List, Bool-cases, inl, inr}
use hivex.Hive.{Hive, Errno, erofs, Outcome, done, failed, Cmd}
use hivex.Hive.Bitmap.Laws.{IsBitmap}
use hivex.Strings.{Iconv}
use hivex.Commit.{Output, hivex_commit}
use hivex.AddChild.{check_add, node_add_child}
use hivex.SetValues.{SetValue, node_set_values, node_set_value}
use hivex.DeleteChild.{check_delete, node_delete_child}
use hivex.Kept.{
  IsAligned, Kept, Kept-refl, Kept-trans, Keeps, at_done, at_failed, SteadyAt, bind-Steady,
  get-Steady, require-Steady, malloc-Steady, guard-refused, bind-refused, refused-Keeps,
}
use hivex.Kept.Change.{hivex_commit-Steady}
use hivex.Kept.Add.{node_add_child-Steady}
use hivex.Kept.SetValues.{node_set_values-Steady, node_set_value-Steady}
use hivex.Kept.Delete.{node_delete_child-Steady}

-- The handle that a call leaves, when it returns.
pub data Leaves {A : Type 0} (h' : Hive) : Outcome A → Type 0 where
  left_done : {a : A} → Leaves h' (done a h')
  left_failed : {e : Errno} → Leaves h' (failed e h')

-- One call, which succeeds or fails.
pub data Call (h h' : Hive) : Type 0 where
  add_child :
      (parent : ℕ) (name? : Option (List ℕ)) → Leaves h' (node_add_child parent name? h) → Call h h'
  set_values : (node : ℕ) (vs : List SetValue) → Leaves h' (node_set_values node vs h) → Call h h'
  set_value : (node : ℕ) (v : SetValue) → Leaves h' (node_set_value node v h) → Call h h'
  delete_child : (ic : Iconv) (node : ℕ) → Leaves h' (node_delete_child ic node h) → Call h h'
  commit : (out : Output) (flags : ℕ) → Leaves h' (hivex_commit out flags h) → Call h h'

pub data Reach (h : Hive) : Hive → Type 0 where
  here : Reach h h
  then_call : {f g : Hive} → Reach h f → Call f g → Reach h g

Leaves-Kept : {A : Type 0} {h h' : Hive} {r : Outcome A} → Leaves h' r → Keeps h r → Kept h h'
Leaves-Kept left_done (at_done k) = k
Leaves-Kept left_failed (at_failed k) = k

module _ (h : Hive) (r : h.writable ≡ false) where
  check_add-refused :
      (parent : ℕ) (name? : Option (List ℕ)) → check_add parent name? h ≡ failed erofs h
  unfolding check_add
  check_add-refused parent none = guard-refused h _ r
  check_add-refused parent (some name) = guard-refused h _ r

  pub add_child-refused :
      (parent : ℕ) (name? : Option (List ℕ)) → node_add_child parent name? h ≡ failed erofs h
  unfolding node_add_child
  add_child-refused parent name? =
      bind-refused h (check_add parent name?) _ (check_add-refused parent name?)

  pub set_values-refused :
      (node : ℕ) (vs : List SetValue) → node_set_values node vs h ≡ failed erofs h
  unfolding node_set_values
  set_values-refused node vs = guard-refused h _ r

  check_delete-refused : (node : ℕ) → check_delete node h ≡ failed erofs h
  unfolding check_delete
  check_delete-refused node = guard-refused h _ r

  pub delete_child-refused : (ic : Iconv) (node : ℕ) → node_delete_child ic node h ≡ failed erofs h
  unfolding node_delete_child
  delete_child-refused ic node = bind-refused h (check_delete node) _ (check_delete-refused node)

commit_frozen : (out : Output) (flags : ℕ) → SteadyAt false (hivex_commit out flags)
unfolding hivex_commit
commit_frozen out flags =
    bind-Steady _ _ (require-Steady _ _) λ _ h r. refused-Keeps h (guard-refused h _ r)

set_value_frozen : (node : ℕ) (v : SetValue) → SteadyAt false (node_set_value node v)
unfolding node_set_value
set_value_frozen node v = bind-Steady _ _ (get-Steady _) λ _. bind-Steady _ _ (malloc-Steady _) λ _.
    bind-Steady _ _ (get-Steady _) λ _. bind-Steady _ _ (malloc-Steady _) λ _.
      bind-Steady _ _ (malloc-Steady _) λ _ h r. refused-Keeps h (set_values-refused h r node _)

by_writable :
    {A : Type 0} {h h' : Hive} (m : Cmd A)
    → SteadyAt true m
    → SteadyAt false m
    → Leaves h' (m h)
    → Kept h h'
by_writable {h} m steady frozen l =
    Leaves-Kept l (elim (Bool-cases h.writable) [ inl t ↦ steady h t | inr f ↦ frozen h f ])

pub Call-Kept : {h h' : Hive} → Call h h' → Kept h h'
Call-Kept (add_child p name? l) =
    by_writable (node_add_child p name?) (node_add_child-Steady p name?)
      (λ h r. refused-Keeps h (add_child-refused h r p name?)) l
Call-Kept (set_values n vs l) =
    by_writable (node_set_values n vs) (node_set_values-Steady n vs)
      (λ h r. refused-Keeps h (set_values-refused h r n vs)) l
Call-Kept (set_value n v l) =
    by_writable (node_set_value n v) (node_set_value-Steady n v) (set_value_frozen n v) l
Call-Kept (delete_child ic n l) =
    by_writable (node_delete_child ic n) (node_delete_child-Steady ic n)
      (λ h r. refused-Keeps h (delete_child-refused h r ic n)) l
Call-Kept (commit out flags l) =
    by_writable (hivex_commit out flags) (hivex_commit-Steady out flags) (commit_frozen out flags) l

Reach-Kept : {h h' : Hive} → Reach h h' → Kept h h'
Reach-Kept {h} here = Kept-refl h
Reach-Kept (then_call r c) = Kept-trans (Reach-Kept r) (Call-Kept c)

-- The handle after the calls, beside the one before.
pub record IsLater (h h' : Hive) : Type 0 where
  pub writable : h'.writable ≡ h.writable
  pub rootoffs : h'.rootoffs ≡ h.rootoffs
  pub last_modified : h'.last_modified ≡ h.last_modified
  pub size : h.size ≤ h'.size
  pub endpages : h.endpages ≤ h'.endpages
  pub bytes : IsBitmap h'.bitmap
  pub aligned : IsAligned h'

-- Any sequence of calls that add a child, delete one, set values or commit, each of which returns
-- with success or an error, leaves a handle on which the flag, the root and the time of the header
-- are those before, and the image and its pages have not become smaller; and if the bitmap
-- consisted of bytes, and pages and blocks ended on 8-byte boundaries, they still do.
pub Reach-IsLater : {h h' : Hive} → Reach h h' → IsBitmap h.bitmap → IsAligned h → IsLater h h'
Reach-IsLater r b a =
    let k = Reach-Kept r in
    record {
      writable = k.writable;
      rootoffs = k.rootoffs;
      last_modified = k.last_modified;
      size = k.size;
      endpages = k.endpages;
      bytes = k.bytes b;
      aligned = k.aligned a;
    }
