-- ===== src/Tests/Calls.antt =====
-- The theorems about sequences of calls and about walks, at the small hive.
use hivex.Base.{arith, ◌≡◌, refl, false, none, some, List, [], ◌∷◌, map}
use hivex.Hive.{Hive, eloop, erofs, einval, other, done}
use hivex.DeleteChild.{deleting}
use hivex.Kept.{IsAligned}
use hivex.Commit.{Output}
use hivex.Kept.Refused.{
  Request, add_child, set_values, delete_child, commit, perform_all, refusal, perform_all-refused,
}
use hivex.Kept.Reach.{
  Reach, here, then_call, delete_child, add_child, left_done, IsLater, Reach-IsLater,
}
use hivex.Visit.{fail}
use hivex.Visit.Depth.{levels, visit_node-levels}
use hivex.Visit.Node.{visitor_size, visit_node, copy_visitor, start_walk}
use hivex.Visit.Once.{logged, IsLog, visit_node-IsLog}
use hivex.Visit.Rule.{Holds, AnyEnd}
use hivex.Tests.{sample_hive, sample-IsBitmap}
use hivex.Tests.Adding.{new_name}
use hivex.Tests.Deleting.{plain, deleted, after_deleting}

delete_call : Reach sample_hive after_deleting
delete_call = then_call here (delete_child plain 0x1080 (rw deleted left_done))

sample-IsAligned : IsAligned sample_hive
sample-IsAligned = (refl, refl)

Reach-IsLater_example : IsLater sample_hive after_deleting
Reach-IsLater_example = Reach-IsLater delete_call sample-IsBitmap sample-IsAligned

abbrev pub read_only : Hive
read_only = record sample_hive { writable = false }

-- No file can be opened.
abbrev no_files : Output
no_files = record { opening = some (other 2); writing = none; closing = none }

abbrev requests : List Request
requests =
    add_child 0x1020 (some new_name)
    ∷ set_values 0x1080 []
    ∷ commit no_files 0
    ∷ delete_child plain 0x1080
    ∷ commit no_files 1
    ∷ []

perform_all-refused_example : perform_all requests read_only ≡ done (map refusal requests) read_only
perform_all-refused_example = perform_all-refused read_only requests refl

-- The errors of these calls.
errors_of_requests :
    map refusal requests ≡ some erofs ∷ some erofs ∷ some erofs ∷ some erofs ∷ some einval ∷ []
unfolding refusal
errors_of_requests = refl

visit_node-IsLog_example :
    Holds
      (IsLog sample_hive.bitmap)
      AnyEnd
      (visit_node plain 0x1020 (logged deleting) visitor_size false ([], tt) sample_hive)
visit_node-IsLog_example =
    visit_node-IsLog plain 0x1020 deleting visitor_size false tt sample_hive sample-IsBitmap

visit_node-levels_example :
    visit_node plain 0x1020 deleting visitor_size false tt sample_hive
    ≡ levels plain
        (copy_visitor visitor_size deleting)
        false
        (λ node. fail eloop)
        3000
        0x1020
        (start_walk tt sample_hive)
visit_node-levels_example =
    visit_node-levels plain 0x1020 deleting visitor_size false tt sample_hive (λ node. fail eloop)
      3000 sample-IsBitmap refl (omega arith)
