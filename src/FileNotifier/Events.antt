-- ===== src/FileNotifier/Events.antt =====
-- src/miners/fs/tracker-file-notifier.c: what happens to a notifier, one event after the other.
use tracker_miners.Base.Options.{◌>>=◌}
use tracker_miners.Base.{
  ℕ, ◌+◌, ◌/◌, ◌%◌, Bool, true, false, not, ◌&&◌, ◌||◌, Option, none, some, List, [], ◌∷◌, ◌++◌,
  is_some, nat_eq, if◌then◌else◌, Eq, ◌==◌,
}
use tracker_miners.Base.Files.{FileOps, file_Eq}
use tracker_miners.FileNotifier.{
  FileInfo, Surroundings, IndexRoot, file_created, file_updated, file_deleted,
  monitor_remove_recursively, flag_recurse, flag_ignore, flag_preserve, flag_priority,
}
use tracker_miners.FileNotifier.Crawl.{Row, handle_rows}
use tracker_miners.FileNotifier.Monitored.{MonitorSignal, handle_signal}
use tracker_miners.FileNotifier.Roots.{
  FileNotifier, Answer, take_flight, answer_flight, emit, cancel, held, queue_root, check_next_root,
  continue_root, directory_finished_output,
}

-- How the loop of handle_cursor ends: behind a whole batch of rows, at the end of the cursor, or with
-- an error.
pub data BatchEnd : Type 0 where
  batch_full cursor_end cursor_error : BatchEnd

pub record Batch (File Name : Type 0) : Type 0 where
  pub rows : List (Row File Name)
  pub ended : BatchEnd

-- flags |= TRACKER_DIRECTORY_FLAG_PRIORITY and flags |= TRACKER_DIRECTORY_FLAG_CHECK_DELETED
abbrev pub with_priority : ℕ → ℕ
with_priority flags = if flag_priority flags then flags else flags + 64

abbrev pub with_check_deleted : ℕ → ℕ
with_check_deleted flags = if nat_eq (flags / 256 % 2) 1 then flags else flags + 256

abbrev pub is_finished : BatchEnd → Bool
is_finished batch_full = false
is_finished _ = true

abbrev pub is_error : BatchEnd → Bool
is_error cursor_error = true
is_error _ = false

abbrev pub is_empty {ℓ} : {A : Type ℓ} → List A → Bool
is_empty [] = true
is_empty (x ∷ xs) = false

module _ {File Name : Type 0} where
  -- tracker_file_notifier_is_active
  abbrev pub is_active : FileNotifier File Name → Bool
  is_active n = not (is_empty n.pending_index_roots) || is_some n.current_index_root

module _ {File Name : Type 0} ⦃ops : FileOps File⦄ where
  -- g_list_find_custom of a directory in the pending roots, and g_list_delete_link
  unfoldable pub delete_root : File → List (IndexRoot File Name) → List (IndexRoot File Name)
  delete_root f [] = []
  delete_root f (r ∷ rs) = let rest = delete_root f rs in if r.root == f then rs else r ∷ rest

module _ {File Name : Type 0} ⦃ops : FileOps File⦄ ⦃names : Eq Name⦄ where
  -- the end of the cursor, in handle_cursor
  abbrev pub end_cursor : BatchEnd → IndexRoot File Name → IndexRoot File Name
  end_cursor ended r =
      if is_finished ended
      then record r {
        pending_dirs =
            if is_error ended || r.cursor_has_content
            then r.pending_dirs
            else r.pending_dirs ++ (r.root, true) ∷ [];
        has_cursor = false;
      }
      else r

  -- handle_cursor, the idle source of a root. The source is gone with its root, so the cancellable of
  -- the root is not cancelled here.
  unfoldable pub handle_cursor :
      Surroundings File Name
      → Batch File Name
      → IndexRoot File Name
      → FileNotifier File Name
      → Option (FileNotifier File Name)
  handle_cursor env batch r n =
      let (r1, outputs) = handle_rows env batch.rows r in
      let r2 = end_cursor batch.ended r1 in
      let m = record (emit outputs n) { current_index_root = some r2 } in
      if is_finished batch.ended
      then continue_root env (record r2 { idle = false }) m
      else if n.high_water
      then continue_root env (record r2 { idle = false }) (held m)
      else some m

  abbrev pub run_idle :
      Surroundings File Name
      → Batch File Name
      → Option (IndexRoot File Name)
      → FileNotifier File Name
      → Option (FileNotifier File Name)
  run_idle env batch none n = some n
  run_idle env batch (some r) n = if r.idle then handle_cursor env batch r n else some n

  -- tracker_file_notifier_continue
  abbrev pub notifier_continue :
      Surroundings File Name
      → Option (IndexRoot File Name)
      → FileNotifier File Name
      → Option (FileNotifier File Name)
  notifier_continue env none n = some (check_next_root n)
  notifier_continue env (some r) n = continue_root env r n

  -- tracker_file_notifier_set_high_water
  unfoldable pub set_high_water :
      Surroundings File Name → Bool → FileNotifier File Name → Option (FileNotifier File Name)
  set_high_water env true n = some (record n { high_water = true })
  set_high_water env false n =
      if n.high_water && not n.active && is_active n
      then notifier_continue env n.current_index_root (record n { high_water = false })
      else some (record n { high_water = false })

  -- tracker_file_notifier_start
  unfoldable pub start :
      Surroundings File Name → FileNotifier File Name → Option (FileNotifier File Name)
  start env n =
      if n.stopped
      then notifier_continue env n.current_index_root (record n { stopped = false })
      else some n

  -- tracker_file_notifier_stop
  abbrev pub queue_again :
      Option (IndexRoot File Name) → FileNotifier File Name → FileNotifier File Name
  queue_again none n = n
  queue_again (some r) n = record (queue_root r.root (with_priority r.flags) r.ignore_root n) {
    current_index_root = none;
  }

  unfoldable pub stop : FileNotifier File Name → FileNotifier File Name
  stop n =
      if n.stopped
      then n
      else let m = cancel n.cancellable n in
        record (queue_again m.current_index_root m) { stopped = true }

  -- indexing_tree_directory_removed of a directory that was ignored
  abbrev pub unignore :
      Surroundings File Name → File → Option File → FileNotifier File Name → FileNotifier File Name
  unignore env directory none n = n
  unignore env directory (some parent) n =
      if flag_recurse (env.root_flags parent)
      then queue_root directory (env.root_flags parent) false n
      else if env.file_is_root parent
      then emit (file_created directory ∷ []) n
      else n

  -- the directory is the one that is being processed
  abbrev pub leave_root :
      File → Option (IndexRoot File Name) → FileNotifier File Name → FileNotifier File Name
  leave_root directory none n = n
  leave_root directory (some r) n =
      if r.root == directory
      then check_next_root (emit (directory_finished_output r ∷ []) (cancel n.cancellable n))
      else n

  unfoldable pub indexing_tree_directory_removed :
      Surroundings File Name → File → FileNotifier File Name → FileNotifier File Name
  indexing_tree_directory_removed env directory n =
      if flag_ignore (env.root_flags directory)
      then unignore env directory (env.get_parent directory) n
      else let m =
          if flag_preserve (env.root_flags directory)
          then n
          else emit (file_deleted directory true ∷ []) n in
        emit (monitor_remove_recursively directory ∷ []) (
          leave_root directory m.current_index_root
            (record m { pending_index_roots = delete_root directory m.pending_index_roots }))

  -- indexing_tree_child_updated, with what g_file_query_info gives
  unfoldable pub indexing_tree_child_updated :
      Surroundings File Name
      → File
      → Option FileInfo
      → FileNotifier File Name
      → FileNotifier File Name
  indexing_tree_child_updated env child none n = n
  indexing_tree_child_updated env child (some info) n =
      if info.is_directory && flag_recurse (env.root_flags child)
      then queue_root child (with_check_deleted (env.root_flags child)) false n
      else if env.file_is_indexable child (some info)
      then emit (file_updated child ∷ []) n
      else n

-- The signals of the indexing tree, the calls of the miner, the answer to a flight at a place, a run
-- of the idle source, and a signal of the monitor.
pub data Event (File Name : Type 0) : Type 0 where
  directory_added directory_updated directory_removed : File → Event File Name
  child_updated : File → Option FileInfo → Event File Name
  sets_high_water : Bool → Event File Name
  starts stops : Event File Name
  answers : ℕ → Answer File → Event File Name
  idles : Batch File Name → Event File Name
  monitored : MonitorSignal File → Event File Name

module _ {File Name : Type 0} ⦃ops : FileOps File⦄ ⦃names : Eq Name⦄ where
  unfoldable pub step :
      Surroundings File Name
      → Event File Name
      → FileNotifier File Name
      → Option (FileNotifier File Name)
  step env (directory_added f) n = some (queue_root f (env.root_flags f) false n)
  step env (directory_updated f) n =
      some (queue_root f (with_check_deleted (env.root_flags f)) false n)
  step env (directory_removed f) n = some (indexing_tree_directory_removed env f n)
  step env (child_updated f info) n = some (indexing_tree_child_updated env f info n)
  step env (sets_high_water b) n = set_high_water env b n
  step env starts n = start env n
  step env stops n = some (stop n)
  step env (answers k a) n = elim (take_flight k n.flights) [
    | none ↦ some n
    | some (f, rest) ↦ answer_flight env f a (record n { flights = rest })
  ]
  step env (idles batch) n = run_idle env batch n.current_index_root n
  step env (monitored signal) n = some (handle_signal env signal n)

  -- each event comes with the surroundings at its time
  unfoldable pub run :
      List (Surroundings File Name × Event File Name)
      → FileNotifier File Name
      → Option (FileNotifier File Name)
  run [] n = some n
  run ((env, e) ∷ es) n = step env e n >>= run es
