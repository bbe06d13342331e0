-- ===== src/SparqlBuffer.antt =====
-- src/miners/fs/tracker-sparql-buffer.c: the task pool that collects database updates into a batch
-- and hands the batch to the database in one piece.
-- `heap` holds the allocated tasks, with `next_task` the next free pointer. A batch is the list of
-- what was added to it. `in_flight` holds the `UpdateBatchData` of each `tracker_batch_execute_async`
-- whose callback has not run yet: when it runs, and with what result, the database decides.
pub mod Sound
pub mod Shape
pub mod Flush
pub mod Order
mod Examples
use Prim.Native.String.{String}
use tracker_miners.Base.{
  ℕ, zero, suc, ◌+◌, ◌-◌, Bool, true, false, Option, none, some, List, [], ◌∷◌, ◌++◌, Eq, ltb,
  nat_eq, if◌then◌else◌,
}
use tracker_miners.TaskPool.{Task, TaskPool, limit_reached, set_limit, add, remove}
use tracker_miners.TaskPool

pub data Statement : Type 0 where
  delete_file delete_file_content delete_content move_file move_content : Statement

-- What GIO tells of a location as text.
pub record UriOps (File : Type 0) : Type 0 where
  pub get_uri : File → String
  pub get_parent : File → File
  pub get_display_basename : File → String

-- SparqlTaskData
pub data SparqlTaskData (R : Type 0) : Type 0 where
  resource : String → R → SparqlTaskData R
  stmt : Statement → SparqlTaskData R

-- What `tracker_batch_add_resource` and `tracker_batch_add_statement` add to a batch.
pub data BatchItem (R : Type 0) : Type 0 where
  add_resource : String → R → BatchItem R
  add_statement : Statement → List (String × String) → BatchItem R

pub record UpdateBatchData (R : Type 0) : Type 0 where
  pub tasks : List ℕ
  pub batch : List (BatchItem R)

pub record SparqlBuffer (File R : Type 0) : Type 0 where
  pub pool : TaskPool File
  pub tasks : Option (List ℕ)
  pub n_updates : ℕ
  pub batch : Option (List (BatchItem R))
  pub heap : ℕ → Task File (SparqlTaskData R)
  pub next_task : ℕ
  pub in_flight : List (UpdateBatchData R)

abbrev pub default_graph : String
default_graph = "tracker:FileSystem"

abbrev pub special_graphs : List String
special_graphs =
    "tracker:Audio" ∷ "tracker:Documents" ∷ "tracker:Pictures" ∷ "tracker:Software"
    ∷ "tracker:Video" ∷ []

abbrev pub list_of : {A : Type 0} → Option (List A) → List A
list_of none = []
list_of (some l) = l

-- g_ptr_array_add, on an array that is created if it is not there
abbrev pub push_to : {A : Type 0} → Option (List A) → A → Option (List A)
push_to l a = some (list_of l ++ a ∷ [])

-- The calls of the miner, and the database's answer.
pub data Call (File R : Type 0) : Type 0 where
  deletes deletes_content : File → Call File R
  moves : File → File → String → Call File R
  moves_content : File → File → Call File R
  logs_file updates_attributes : File → Option String → R → Option R → Call File R
  logs_folder : File → Bool → R → R → Call File R
  flushes answers : Call File R

module _ {File R : Type 0} ⦃e : Eq File⦄ where
  -- tracker_sparql_buffer_new, over the tasks of a heap
  unfoldable pub new : (ℕ → Task File (SparqlTaskData R)) → ℕ → SparqlBuffer File R
  unfolding set_limit
  new heap limit = record {
    pool = (set_limit TaskPool.init limit).pool;
    tasks = none;
    n_updates = 0;
    batch = none;
    heap = heap;
    next_task = 0;
    in_flight = [];
  }

  -- tracker_batch_add_resource or _add_statement on the current batch, created if there is none
  unfoldable pub add_to_batch : SparqlBuffer File R → BatchItem R → SparqlBuffer File R
  add_to_batch b item = record b { batch = push_to b.batch item }

  unfoldable pub push_to_pool : SparqlBuffer File R → ℕ → SparqlBuffer File R
  unfolding add
  push_to_pool b task = record b {
    pool = (add b.heap b.pool task).pool;
    tasks = push_to b.tasks task;
  }

  -- tracker_task_new
  unfoldable pub task_new : SparqlBuffer File R → File → SparqlTaskData R → SparqlBuffer File R
  task_new b file content = record b {
    heap =
        λ t. if nat_eq t b.next_task then record { file = file; content = content } else b.heap t;
    next_task = b.next_task + 1;
  }

  unfoldable pub push_task : SparqlBuffer File R → File → SparqlTaskData R → SparqlBuffer File R
  unfolding task_new push_to_pool
  push_task b file content = push_to_pool (task_new b file content) b.next_task

  -- tracker_sparql_buffer_push
  unfoldable pub push : SparqlBuffer File R → File → String → R → SparqlBuffer File R
  unfolding add_to_batch push_task
  push b file graph r = push_task (add_to_batch b (add_resource graph r)) file (resource graph r)

  -- if (content_graph && graph_resource) push
  unfoldable pub push_content :
      SparqlBuffer File R → File → Option String → Option R → SparqlBuffer File R
  unfolding push
  push_content b file (some graph) (some r) = push b file graph r
  push_content b file (some graph) none = b
  push_content b file none r = b

  unfoldable pub push_graphs : SparqlBuffer File R → File → List String → R → SparqlBuffer File R
  unfolding push
  push_graphs b file [] r = b
  push_graphs b file (g ∷ gs) r = push_graphs (push b file g r) file gs r

  unfoldable pub log_folder : SparqlBuffer File R → File → Bool → R → R → SparqlBuffer File R
  unfolding push push_graphs
  log_folder b file is_root file_resource folder_resource =
      let b1 = if is_root then push_graphs b file special_graphs folder_resource else b in
      push (push b1 file default_graph file_resource) file default_graph folder_resource

  unfoldable pub log_attributes_update :
      SparqlBuffer File R → File → Option String → R → Option R → SparqlBuffer File R
  unfolding push push_content
  log_attributes_update b file content_graph file_resource graph_resource =
      push (push_content b file content_graph graph_resource) file default_graph file_resource

  unfoldable pub push_stmt_task : SparqlBuffer File R → Statement → File → SparqlBuffer File R
  unfolding push_task
  push_stmt_task b s file = push_task b file (stmt s)

  -- the statement goes to the batch, and a task for it to the pool
  unfoldable pub log_statement :
      SparqlBuffer File R → Statement → List (String × String) → File → SparqlBuffer File R
  unfolding add_to_batch push_stmt_task
  log_statement b s args file = push_stmt_task (add_to_batch b (add_statement s args)) s file

  -- remove_task_foreach, over the tasks of an update
  unfoldable pub remove_tasks :
      (ℕ → Task File (SparqlTaskData R)) → TaskPool File → List ℕ → TaskPool File
  unfolding remove
  remove_tasks heap p [] = p
  remove_tasks heap p (t ∷ ts) = remove_tasks heap (remove heap p t).pool ts

  unfoldable pub start_update : SparqlBuffer File R → List ℕ → SparqlBuffer File R
  unfolding remove_tasks
  start_update b tasks = record b {
    pool = remove_tasks b.heap b.pool tasks;
    tasks = none;
    n_updates = b.n_updates + 1;
    batch = none;
    in_flight = b.in_flight ++ record { tasks = tasks; batch = list_of b.batch } ∷ [];
  }

  unfoldable pub flush_tasks : SparqlBuffer File R → Option (List ℕ) → SparqlBuffer File R × Bool
  unfolding start_update
  flush_tasks b none = (b, false)
  flush_tasks b (some []) = (b, false)
  flush_tasks b (some (t ∷ ts)) = (start_update b (t ∷ ts), true)

  unfoldable pub flush : SparqlBuffer File R → SparqlBuffer File R × Bool
  unfolding flush_tasks
  flush b = if ltb 0 b.n_updates then (b, false) else flush_tasks b b.tasks

module _ {File R : Type 0} where
  -- batch_execute_cb for the oldest update in flight: the tasks come back to the caller of the flush,
  -- on success and on an error alike (tracker_sparql_buffer_flush_finish).
  unfoldable pub batch_execute_cb :
      SparqlBuffer File R → SparqlBuffer File R × Option (UpdateBatchData R)
  batch_execute_cb b = elim b.in_flight [
    | [] ↦ (b, none)
    | u ∷ us ↦ (record b { n_updates = b.n_updates - 1; in_flight = us }, some u)
  ]

module _ {File R : Type 0} ⦃e : Eq File⦄ (uris : UriOps File) where
  open uris use {get_uri, get_parent, get_display_basename}

  unfoldable pub log_delete : SparqlBuffer File R → File → SparqlBuffer File R
  unfolding log_statement
  log_delete b file = log_statement b delete_file (("uri", get_uri file) ∷ []) file

  unfoldable pub log_delete_content : SparqlBuffer File R → File → SparqlBuffer File R
  unfolding log_statement
  log_delete_content b file = log_statement b delete_content (("uri", get_uri file) ∷ []) file

  unfoldable pub log_move : SparqlBuffer File R → File → File → String → SparqlBuffer File R
  unfolding log_statement
  log_move b source dest dest_data_source =
      log_statement b move_file
        (("sourceUri", get_uri source)
          ∷ ("destUri", get_uri dest)
          ∷ ("newFilename", get_display_basename dest)
          ∷ ("newParent", get_uri (get_parent dest))
          ∷ ("newDataSource", dest_data_source)
          ∷ [])
        dest

  unfoldable pub log_move_content : SparqlBuffer File R → File → File → SparqlBuffer File R
  unfolding log_statement
  log_move_content b source dest =
      log_statement b move_content (("sourceUri", get_uri source) ∷ ("destUri", get_uri dest) ∷ [])
        dest

  unfoldable pub log_file :
      SparqlBuffer File R → File → Option String → R → Option R → SparqlBuffer File R
  unfolding add_to_batch push push_content
  log_file b file content_graph file_resource graph_resource =
      let b1 = add_to_batch b (add_statement delete_file_content (("uri", get_uri file) ∷ [])) in
      let b2 = push b1 file default_graph file_resource in
      push_content b2 file content_graph graph_resource

  unfoldable pub step : SparqlBuffer File R → Call File R → SparqlBuffer File R
  unfolding log_delete log_delete_content log_move log_move_content log_file log_folder
      log_attributes_update flush batch_execute_cb
  step b (deletes f) = log_delete b f
  step b (deletes_content f) = log_delete_content b f
  step b (moves f g s) = log_move b f g s
  step b (moves_content f g) = log_move_content b f g
  step b (logs_file f c r x) = log_file b f c r x
  step b (updates_attributes f c r x) = log_attributes_update b f c r x
  step b (logs_folder f root r x) = log_folder b f root r x
  step b flushes = (flush b).0
  step b answers = (batch_execute_cb b).0

  unfoldable pub run : SparqlBuffer File R → List (Call File R) → SparqlBuffer File R
  unfolding step
  run b [] = b
  run b (c ∷ cs) = run (step b c) cs
