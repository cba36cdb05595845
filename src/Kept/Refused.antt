-- ===== src/Kept/Refused.antt =====
-- Sequences of calls that want to write, whether they return or not.
use hivex.Base.{
  ℕ, ◌≡◌, refl, ap, false, Option, none, some, List, [], ◌∷◌, map, ◌==◌, if◌then◌else◌, Bool-cases,
  inl, inr,
}
use hivex.Hive.{Hive, Errno, einval, erofs, Outcome, done, failed, crash, Cmd}
use hivex.Hive.Writer.{◌>>=◌, pure, require}
use hivex.Hive.Writer.Laws.{step}
use hivex.Strings.{Iconv}
use hivex.Commit.{Output, hivex_commit}
use hivex.AddChild.{node_add_child}
use hivex.SetValues.{SetValue, node_set_values}
use hivex.DeleteChild.{node_delete_child}
use hivex.Kept.Reach.{add_child-refused, set_values-refused, delete_child-refused}

-- A call of one of the functions that begin with the test of the flag.
pub data Request : Type 0 where
  add_child : ℕ → Option (List ℕ) → Request
  set_values : ℕ → List SetValue → Request
  delete_child : Iconv → ℕ → Request
  commit : Output → ℕ → Request

-- What the caller sees: the errno, or none for success.
abbrev outcome_of : {A : Type 0} → Outcome A → Outcome (Option Errno)
outcome_of (done a h) = done none h
outcome_of (failed e h) = done (some e) h
outcome_of (crash t) = crash t

unfoldable pub perform : Request → Cmd (Option Errno)
perform (add_child parent name?) h = outcome_of (node_add_child parent name? h)
perform (set_values node vs) h = outcome_of (node_set_values node vs h)
perform (delete_child ic node) h = outcome_of (node_delete_child ic node h)
perform (commit out flags) h = outcome_of (hivex_commit out flags h)

-- One call after the other, also after an error; a crash ends the sequence.
unfoldable pub perform_all : List Request → Cmd (List (Option Errno))
perform_all [] = pure []
perform_all (r ∷ rs) = do first ← perform r; rest ← perform_all rs; pure (first ∷ rest)

-- The error that is due: only `hivex_commit` looks at another argument first.
unfoldable pub refusal : Request → Option Errno
refusal (commit out flags) = if flags == 0 then some erofs else some einval
refusal _ = some erofs

module _ (h : Hive) (r : h.writable ≡ false) where
  commit-refused :
      (out : Output) (flags : ℕ)
      → perform (commit out flags) h ≡ done (refusal (commit out flags)) h
  unfolding perform refusal hivex_commit ◌>>=◌ require
  commit-refused out flags = elim (Bool-cases (flags == 0)) [
    | inl e ↦ rw (e, r) refl
    | inr e ↦ rw e refl
  ]

  perform-refused : (q : Request) → perform q h ≡ done (refusal q) h
  unfolding perform refusal
  perform-refused (add_child parent name?) = ap outcome_of (add_child-refused h r parent name?)
  perform-refused (set_values node vs) = ap outcome_of (set_values-refused h r node vs)
  perform-refused (delete_child ic node) = ap outcome_of (delete_child-refused h r ic node)
  perform-refused (commit out flags) = commit-refused out flags

pub perform_all-refused :
    (h : Hive) (rs : List Request) → h.writable ≡ false → perform_all rs h ≡ done (map refusal rs) h
unfolding perform_all
perform_all-refused h [] r = refl
perform_all-refused h (q ∷ rs) r =
    step h _ _ (perform-refused h r q) (step h _ _ (perform_all-refused h rs r) refl)
