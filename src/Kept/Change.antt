-- ===== src/Kept/Change.antt =====
-- The operations that add children and set values keep the handle in order.
use hivex.Base.{ℕ, zero, suc, ◌+◌, Option, none, some, List, [], ◌∷◌}
use hivex.Hive.{Errno, Cmd}
use hivex.Hive.Writer.{pure}
use hivex.Commit.{Output, attempt, update_header, hivex_commit}
use hivex.Records.{store_key, new_lh_record, move_keys, insert_lf_record}
use hivex.AddChild.{new_nk_record, inherit, find_posn}
use hivex.Kept.{
  Steady, bind-Steady, if-Steady, done-Steady, failed-Steady, get-Steady, asks-Steady,
  require-Steady, assert-Steady, store16-Steady, store32-Steady, store64-Steady, store_bytes-Steady,
}
use hivex.Kept.Alloc.{allocate_block-Steady, mark_block_unused-Steady}

attempt-Steady : (e : Option Errno) → Steady (attempt e)
attempt-Steady none = done-Steady tt
attempt-Steady (some e) = failed-Steady e

pub hivex_commit-Steady : (out : Output) (flags : ℕ) → Steady (hivex_commit out flags)
unfolding hivex_commit update_header
hivex_commit-Steady out flags = bind-Steady _ _ (require-Steady _ _) λ _.
    bind-Steady _ _ (asks-Steady _) λ _. bind-Steady _ _ (require-Steady _ _) λ _.
      bind-Steady _ _ (attempt-Steady out.opening) λ _. bind-Steady _ _ update λ _.
        bind-Steady _ _ (attempt-Steady out.writing)
          λ _. bind-Steady _ _ (attempt-Steady out.closing) λ _. asks-Steady _
  where
    update : Steady update_header
    update = bind-Steady _ _ (get-Steady _) λ _. bind-Steady _ _ (store32-Steady _ _) λ _.
        bind-Steady _ _ (store32-Steady _ _) λ _. bind-Steady _ _ (asks-Steady _) λ _.
          bind-Steady _ _ (store32-Steady _ _)
            λ _. bind-Steady _ _ (get-Steady _) λ _. store32-Steady _ _

store_key-Steady : (o a b : ℕ) (name : List ℕ) (node : ℕ) → Steady (store_key o a b name node)
unfolding store_key
store_key-Steady o a b name node = bind-Steady _ _ (store32-Steady _ _) λ _. store_bytes-Steady _ _

pub new_lh_record-Steady : (name : List ℕ) (node : ℕ) → Steady (new_lh_record name node)
unfolding new_lh_record
new_lh_record-Steady name node = bind-Steady _ _ (allocate_block-Steady _ _ _) λ _.
    bind-Steady _ _ (store16-Steady _ _)
      λ _. bind-Steady _ _ (store_key-Steady _ _ _ _ _) λ _. done-Steady _

pub move_keys-Steady : (n src dst : ℕ) → Steady (move_keys n src dst)
unfolding move_keys
move_keys-Steady zero src dst = done-Steady tt
move_keys-Steady (suc n) src dst =
    bind-Steady _ _ (get-Steady _)
      λ _. bind-Steady _ _ (store_bytes-Steady _ _) λ _. move_keys-Steady n (src + 8) (dst + 8)

pub insert_lf_record-Steady :
    (old posn : ℕ) (name : List ℕ) (node : ℕ) → Steady (insert_lf_record old posn name node)
unfolding insert_lf_record
insert_lf_record-Steady old posn name node = bind-Steady _ _ (asks-Steady _) λ _.
    bind-Steady _ _ (assert-Steady _) λ _. bind-Steady _ _ (get-Steady _) λ _.
      bind-Steady _ _ (assert-Steady _) λ _. bind-Steady _ _ (get-Steady _) λ n.
        bind-Steady _ _ (get-Steady _) λ _. bind-Steady _ _ (get-Steady _) λ _.
          bind-Steady _ _ (allocate_block-Steady _ _ _) λ new.
            bind-Steady _ _ (store16-Steady _ _) λ _. bind-Steady _ _ (move_keys-Steady _ _ _) λ _.
              bind-Steady _ _ (get-Steady _) λ _. bind-Steady _ _ (get-Steady _) λ _.
                bind-Steady _ _ (store_key-Steady _ _ _ _ _) λ _.
                  bind-Steady _ _ (move_keys-Steady _ _ _)
                    λ _. bind-Steady _ _ (mark_block_unused-Steady _) λ _. done-Steady _

pub new_nk_record-Steady : (parent : ℕ) (name : List ℕ) → Steady (new_nk_record parent name)
unfolding new_nk_record
new_nk_record-Steady parent name = bind-Steady _ _ (allocate_block-Steady _ _ _) λ _.
    bind-Steady _ _ (store16-Steady _ _) λ _. bind-Steady _ _ (store32-Steady _ _) λ _.
      bind-Steady _ _ (store32-Steady _ _) λ _. bind-Steady _ _ (store32-Steady _ _) λ _.
        bind-Steady _ _ (store32-Steady _ _) λ _. bind-Steady _ _ (store32-Steady _ _) λ _.
          bind-Steady _ _ (store16-Steady _ _)
            λ _. bind-Steady _ _ (store_bytes-Steady _ _) λ _. done-Steady _

pub inherit-Steady : (parent node : ℕ) → Steady (inherit parent node)
unfolding inherit
inherit-Steady parent node = bind-Steady _ _ (get-Steady _) λ _. bind-Steady _ _ (get-Steady _) λ _.
    bind-Steady _ _ (require-Steady _ _) λ _. bind-Steady _ _ (get-Steady _) λ _.
      bind-Steady _ _ (store32-Steady _ _) λ _.
        bind-Steady _ _ (store32-Steady _ _)
          λ _. bind-Steady _ _ (get-Steady _) λ _. store64-Steady _ _

pub find_posn-Steady :
    (name : List ℕ) (blocks : List ℕ) (old : ℕ) → Steady (find_posn name blocks old)
unfolding find_posn
find_posn-Steady name [] old =
    bind-Steady _ _ (assert-Steady _) λ _. bind-Steady _ _ (get-Steady _) λ _. done-Steady _
find_posn-Steady name (b ∷ bs) old = bind-Steady _ _ (get-Steady _) λ lf.
    if-Steady lf
      (bind-Steady _ _ (get-Steady _) λ _.
        bind-Steady _ _ (get-Steady _) (found (find_posn name bs b) (find_posn-Steady name bs b) b))
      (find_posn-Steady name bs old)
  where
    found :
        (m : Cmd (ℕ × ℕ))
        → Steady m
        → (b : ℕ) (r : Option ℕ)
        → Steady (elim r as (λ r'. Cmd (ℕ × ℕ)) [ some j ↦ pure (b, j) | none ↦ m ])
    found m steady b (some j) = done-Steady _
    found m steady b none = steady
