-- ===== src/FileNotifier/Examples.antt =====
-- Runs of a notifier on the locations of Samples, with numbers for names.
use tracker_miners.Base.{
  ℕ, ◌≡◌, refl, Bool, true, false, not, ◌&&◌, ◌==◌, Option, none, some, List, [], ◌∷◌, ℕ_Eq, lookup,
  insert, remove_key, ◌++◌, arith,
}
use tracker_miners.Base.Files.{file_Eq}
use tracker_miners.Samples.{Location, location_ops, dirname, same_path_iff}
use tracker_miners.FileNotifier.{
  FileInfo, Surroundings, FileData, IndexRoot, delete, new_data, file_updated, Output, finished,
  monitor_set_enabled, directory_started, file_created, directory_finished, index_root_new,
  ensure_file_data, insert_disk_info, delete_link, free_data, notify, notify_loop, notify_changes,
}
use tracker_miners.FileNotifier.Crawl.{
  Row, handle_file_from_cursor, handle_rows, handle_file_from_filesystem, handle_child,
  handle_children,
}
use tracker_miners.FileNotifier.Roots.{
  FileNotifier, Flight, Answer, query_execute, file_notifier_init, file_notifier_new,
  check_disable_monitor, take_flight, next_root, check_next_root, queue_root, continue_root,
  query_execute_cb, query_root_info_cb, enumerate_children_cb, enumerator_next_files_cb,
  answer_flight,
}
use tracker_miners.FileNotifier.Events.{
  Event, starts, directory_added, answers, idles, cursor_end, start, handle_cursor, step, run,
}
use tracker_miners.FileNotifier.Cached.{IsCached}
use tracker_miners.FileNotifier.Runs.{run-new-enabled}
use tracker_miners.FileNotifier.Compared.{told_of, waiting, listed-told}
use tracker_miners.FileNotifier.Rows.{handle_file_from_cursor-compared}
use tracker_miners.FileNotifier.Monitored.{MonitorSignal, item_created, item_deleted, item_moved}
use tracker_miners.FileNotifier.Disk.{IsPlain, signals, learn_all, all_on_disk, run-signals}
use tracker_miners.FileNotifier.Reentry.{query_of, lowered_turn, held_low, lowered_turn-dangles}
use tracker_miners.FileNotifier.Stalled.{IsStalled, run-failed_query}

-- a tree in which every directory is recursed into and every file is indexable
abbrev sample_env : Surroundings Location ℕ
sample_env = record {
  file_is_indexable = λ f info. true;
  parent_is_indexable = λ f. true;
  file_is_root = λ f. false;
  root_flags = λ f. 2;
  get_parent = λ f. some (dirname f);
  get_hash = λ m. none;
  get_extension = λ f. none;
  is_stored_directory = λ f. false;
}

abbrev folder : FileInfo
folder = record { is_directory = true; mtime = 5; is_mountpoint = false }

abbrev document : FileInfo
document = record { is_directory = false; mtime = 6; is_mountpoint = false }

abbrev answer : List (Location × FileInfo) → Answer Location
answer infos = record { has_cursor = true; failed = false; info = folder; infos = infos }

abbrev begun : List (Surroundings Location ℕ × Event Location ℕ)
begun = (sample_env, starts) ∷ (sample_env, directory_added (1 ∷ [])) ∷ []

-- the directory is not in the store, and has one document
abbrev whole : List (Surroundings Location ℕ × Event Location ℕ)
whole =
    (sample_env, starts)
    ∷ (sample_env, directory_added (1 ∷ []))
    ∷ (sample_env, answers 0 (answer []))
    ∷ (sample_env, idles (record { rows = []; ended = cursor_end }))
    ∷ (sample_env, answers 0 (answer []))
    ∷ (sample_env, answers 0 (answer []))
    ∷ (sample_env, answers 0 (answer ((2 ∷ 1 ∷ [], document) ∷ [])))
    ∷ []

outputs_of : Option (FileNotifier Location ℕ) → List (Output Location)
outputs_of none = []
outputs_of (some n) = n.outputs

whole-outputs :
    outputs_of (run whole (file_notifier_new none 0))
    ≡ finished
      ∷ directory_started (1 ∷ [])
      ∷ file_created (1 ∷ [])
      ∷ file_created (2 ∷ 1 ∷ [])
      ∷ directory_finished (1 ∷ []) 0 0 1 0
      ∷ finished
      ∷ []
unfolding outputs_of check_disable_monitor run step start queue_root check_next_root next_root
    answer_flight take_flight query_execute_cb handle_cursor handle_rows continue_root
    query_root_info_cb handle_file_from_filesystem insert_disk_info ensure_file_data free_data
    delete_link notify enumerate_children_cb enumerator_next_files_cb handle_children handle_child
    notify_changes notify_loop lookup insert remove_key
whole-outputs = refl

abbrev query_flight : Flight Location
query_flight = record { root = 0; callback = query_execute; cancelled = false }

abbrev after_begun : FileNotifier Location ℕ
after_begun = record {
  pending_index_roots = [];
  current_index_root = some (index_root_new 0 (1 ∷ []) 2 false);
  cancellable = some 0;
  stopped = false;
  high_water = false;
  active = true;
  monitor_enabled = true;
  next_id = 1;
  flights = query_flight ∷ [];
  outputs = finished ∷ directory_started (1 ∷ []) ∷ [];
}

begun-after_begun : run begun (file_notifier_new none 0) ≡ some after_begun
unfolding check_disable_monitor run step start queue_root check_next_root next_root
begun-after_begun = refl

abbrev no_cursor : Answer Location
no_cursor = record { has_cursor = false; failed = true; info = folder; infos = [] }

taken_query : take_flight 0 after_begun.flights ≡ some (query_flight, [])
unfolding take_flight
taken_query = refl

-- another directory is added after the query has failed
run-failed_query_example :
    (m : FileNotifier Location ℕ) × (run
        ((sample_env, answers 0 no_cursor) ∷ (sample_env, directory_added (3 ∷ [])) ∷ [])
        after_begun
      ≡ some m)
    × IsStalled 0 m
run-failed_query_example =
    run-failed_query none 0 begun ((sample_env, directory_added (3 ∷ [])) ∷ []) after_begun
      sample_env 0 no_cursor query_flight [] begun-after_begun taken_query refl refl refl (tt, tt)

-- a document that the store has with an older time, and whose data wait for the listing of its directory
abbrev old_row : Row Location ℕ
old_row = record {
  file = 2 ∷ 1 ∷ [];
  is_folder = false;
  mtime = 3;
  hash = none;
  mimetype = none;
  info = some document;
}

abbrev crawled_root : IndexRoot Location ℕ
crawled_root = record (index_root_new 0 (1 ∷ []) 2 false) { pending_dirs = (1 ∷ [], false) ∷ [] }

crawled_root-IsCached : IsCached crawled_root
unfolding lookup
crawled_root-IsCached = record { queued = λ f. refl; own = λ f d e. absurd (ground (arith, e)) }

handle_file_from_cursor-compared_example :
    told_of (2 ∷ 1 ∷ []) (handle_file_from_cursor sample_env crawled_root old_row).1
      ++ waiting
          (lookup (2 ∷ 1 ∷ []) (handle_file_from_cursor sample_env crawled_root old_row).0.cache)
    ≡ file_updated (2 ∷ 1 ∷ []) ∷ []
unfolding lookup
handle_file_from_cursor-compared_example =
    handle_file_from_cursor-compared sample_env crawled_root old_row crawled_root-IsCached refl refl

waiting_data : FileData Location ℕ
waiting_data = record (new_data (2 ∷ 1 ∷ [])) { in_store = true; store_mtime = 3; state = delete }

waiting_root : IndexRoot Location ℕ
waiting_root = record crawled_root {
  cache = (2 ∷ 1 ∷ [], waiting_data) ∷ [];
  queue = (2 ∷ 1 ∷ []) ∷ [];
}

waiting_root-IsCached : IsCached waiting_root
unfolding waiting_root waiting_data lookup
waiting_root-IsCached = record {
  queued = λ f. ground arith;
  own = λ f d e. ground (arith, e, same_path_iff (2 ∷ 1 ∷ []) f);
}

two_entries : List (Location × FileInfo)
two_entries = (2 ∷ 1 ∷ [], document) ∷ (4 ∷ 1 ∷ [], document) ∷ []

listed-told_example :
    (s : IndexRoot Location ℕ) × (outputs : List (Output Location)) × (notify_changes
        (handle_children sample_env two_entries waiting_root).0
      ≡ some (outputs, s))
    × (told_of (2 ∷ 1 ∷ []) ((handle_children sample_env two_entries waiting_root).1 ++ outputs)
        ≡ file_updated (2 ∷ 1 ∷ []) ∷ [])
unfolding two_entries waiting_root waiting_data lookup
listed-told_example =
    listed-told sample_env two_entries waiting_root (2 ∷ 1 ∷ []) (refl, (refl, tt))
      ((refl, refl), ((refl, refl), tt)) waiting_root-IsCached

-- one location is left out
abbrev filtered_env : Surroundings Location ℕ
filtered_env = record sample_env { file_is_indexable = λ f info. not (f == (9 ∷ 1 ∷ [])) }

filtered_env-IsPlain : IsPlain filtered_env
filtered_env-IsPlain = record { indexable = λ f info. refl; parents = λ p. refl }

-- a file is created and is given another name, one that is left out is given the name that is free,
-- and the first one is deleted
abbrev four_signals : List (MonitorSignal Location)
four_signals =
    item_created (2 ∷ 1 ∷ []) false
    ∷ item_moved (2 ∷ 1 ∷ []) (3 ∷ 1 ∷ []) false
    ∷ item_moved (9 ∷ 1 ∷ []) (2 ∷ 1 ∷ []) false
    ∷ item_deleted (3 ∷ 1 ∷ []) false
    ∷ []

abbrev left_out_on_disk : Location → Bool
left_out_on_disk f = f == (9 ∷ 1 ∷ [])

none_known : (f : Location) → false ≡ (left_out_on_disk f && not (f == (9 ∷ 1 ∷ [])))
none_known f = ground arith

run-signals_example :
    (m : FileNotifier Location ℕ) × (told : List (Output Location)) × (run
        (signals filtered_env four_signals)
        after_begun
      ≡ some m)
    × (m.outputs ≡ after_begun.outputs ++ told)
    × ((f : Location)
        → learn_all told (λ f. false) f
          ≡ (all_on_disk four_signals left_out_on_disk f && filtered_env.file_is_indexable f none))
run-signals_example =
    run-signals filtered_env four_signals left_out_on_disk (λ f. false) after_begun
      filtered_env-IsPlain (refl, ((refl, refl), ((refl, refl), (refl, tt)))) none_known

-- the monitor of this one is disabled until it is started
abbrev one_start : List (Surroundings Location ℕ × Event Location ℕ)
one_start = (sample_env, starts) ∷ []

abbrev started : FileNotifier Location ℕ
started = record file_notifier_init {
  stopped = false;
  outputs = monitor_set_enabled false ∷ finished ∷ monitor_set_enabled true ∷ [];
}

one_start-started : run one_start (file_notifier_new (some 600) 500) ≡ some started
unfolding check_disable_monitor run step start check_next_root next_root
one_start-started = refl

run-new-enabled_example : started.monitor_enabled ≡ true
run-new-enabled_example =
    run-new-enabled (some 600) 500 one_start started one_start-started refl refl

-- an ignored directory and one to crawl are pending
lowered_turn-dangles_example :
    (m : FileNotifier Location ℕ) × (lowered_turn sample_env
        (index_root_new 4 (5 ∷ []) 16 false)
        (index_root_new 6 (7 ∷ []) 2 false ∷ [])
        (held_low started)
      ≡ some m)
    × (m.current_index_root ≡ none)
    × (m.flights ≡ query_of 6 ∷ [])
    × ((a : Answer Location) → answer_flight sample_env (query_of 6) a m ≡ none)
lowered_turn-dangles_example =
    lowered_turn-dangles sample_env 4 6 16 2 (5 ∷ []) (7 ∷ []) false false started refl refl refl
