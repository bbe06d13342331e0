-- ===== src/SparqlBuffer/Examples.antt =====
-- A buffer that logs a file and a deletion, flushes, and logs a folder while the update is in flight.
use tracker_miners.Base.{ℕ, ◌≡◌, refl, ◌⊎◌, true, some, List, [], ◌∷◌, ◌++◌, length}
use tracker_miners.Samples.{Location, location_Eq, location_uris}
use tracker_miners.TaskPool.{Task, get_size}
use tracker_miners.SparqlBuffer.{
  SparqlTaskData, stmt, delete_file, SparqlBuffer, Call, deletes, logs_file, logs_folder, flushes,
  answers, new, flush, run,
}
use tracker_miners.SparqlBuffer.Order.{pending, all_items, all_delivered, all_delivered-pending}
use tracker_miners.SparqlBuffer.Shape.{IsConsistent, run-new-IsConsistent}
use tracker_miners.SparqlBuffer.Flush.{Refused, Sent, flush-Sent}

abbrev no_tasks : ℕ → Task Location (SparqlTaskData ℕ)
no_tasks t = record { file = []; content = stmt delete_file }

abbrev start : SparqlBuffer Location ℕ
start = new no_tasks 800

abbrev logging : List (Call Location ℕ)
logging = logs_file (1 ∷ []) (some "tracker:Audio") 7 (some 8) ∷ deletes (2 ∷ []) ∷ []

abbrev calls : List (Call Location ℕ)
calls = deletes (2 ∷ []) ∷ flushes ∷ logs_folder (3 ∷ []) true 5 6 ∷ flushes ∷ answers ∷ []

abbrev logged : SparqlBuffer Location ℕ
logged = run location_uris start logging

-- two resources and a statement have a task each; the statement before the resources has none
logged_size : get_size logged.pool ≡ 3
unfolding run new
logged_size = refl

logged_items : length (pending logged) ≡ 4
unfolding run new
logged_items = refl

-- the second flush finds an update in flight
one_in_flight : (run location_uris start calls).n_updates ≡ 0
unfolding run new
one_in_flight = refl

all_delivered-pending_example :
    all_delivered location_uris start calls ++ pending (run location_uris start calls)
    ≡ all_items location_uris calls
unfolding new
all_delivered-pending_example = all_delivered-pending location_uris start calls

run-new-IsConsistent_example : IsConsistent (run location_uris start calls)
run-new-IsConsistent_example = run-new-IsConsistent location_uris no_tasks 800 calls

flush-Sent_example : Refused logged (flush logged) ⊎ Sent logged (flush logged)
flush-Sent_example = flush-Sent logged (run-new-IsConsistent location_uris no_tasks 800 logging)
