-- ===== src/TaskPool/Examples.antt =====
-- A pool of three tasks, two of one file, and the theorems at it.
use tracker_miners.Base.{
  ℕ, ◌≡◌, refl, true, List, [], ◌∷◌, arith, nat_eq, if◌then◌else◌, lookup, insert,
}
use tracker_miners.Samples.{Location, location_ops, location_Eq}
use tracker_miners.TaskPool.{
  Task, TaskPool, Call, adds, removes, sets_limit, init, xor, limit_reached, find, step, run,
}
use tracker_miners.TaskPool.Limit.{step-notified}
use tracker_miners.TaskPool.Index.{IsIndexed, has_file, run-init-IsIndexed, find-has_file}

abbrev heap : ℕ → Task Location ℕ
heap t = record { file = if nat_eq t 2 then 2 ∷ [] else 1 ∷ []; content = t }

abbrev calls : List Call
calls = sets_limit 3 ∷ adds 1 ∷ adds 2 ∷ adds 3 ∷ []

abbrev full : TaskPool Location
full = run heap init calls

full_tasks : full.tasks ≡ 1 ∷ 2 ∷ 3 ∷ []
unfolding run
full_tasks = refl

full_reached : limit_reached full ≡ true
unfolding run limit_reached
full_reached = refl

-- the last task takes the place of the first
removed_fast : (step heap full (removes 1)).pool.tasks ≡ 3 ∷ 2 ∷ []
unfolding run step
removed_fast = refl

still_found : find (step heap full (removes 1)).pool (1 ∷ []) ≡ true
unfolding run step find lookup insert
still_found = refl

step-notified_example :
    (step heap full (removes 1)).notified
    ≡ xor (limit_reached full) (limit_reached (step heap full (removes 1)).pool)
unfolding run
step-notified_example = step-notified heap full (removes 1) (omega arith) (omega arith)

run-init-IsIndexed_example : IsIndexed heap full
run-init-IsIndexed_example = run-init-IsIndexed heap calls

find-has_file_example : find full (2 ∷ []) ≡ has_file heap full.tasks (2 ∷ [])
find-has_file_example = find-has_file heap full (2 ∷ []) (run-init-IsIndexed heap calls)
