-- ===== src/FileNotifier/Roots.antt =====
-- src/miners/fs/tracker-file-notifier.c: which index root is crawled, and the calls that are in flight.
-- A call that GIO or the database answers is a flight, with the root that its callback is given. A
-- function gives none where the code would follow a pointer to an index root or to data that are
-- freed. The statement of the query is taken to be loaded. A signal calls nothing back: that a handler
-- sets the high-water mark is an event of its own, and Reentry has what comes of it in the loop of
-- notifier_check_next_root.
use tracker_miners.Base.Options.{◌>>=◌}
use tracker_miners.Base.{
  ℕ, zero, suc, Bool, true, false, not, ◌&&◌, ◌||◌, Option, none, some, List, [], ◌∷◌, ◌++◌,
  is_some, nat_eq, ltb, length, if◌then◌else◌, Eq,
}
use tracker_miners.Base.Files.{FileOps, file_Eq}
use tracker_miners.FileNotifier.{
  FileInfo, Surroundings, IndexRoot, Output, file_deleted, directory_started, directory_finished,
  finished, monitor_set_enabled, monitor_add, index_root_new, flag_monitor, flag_ignore,
  flag_preserve, flag_priority, notify_changes,
}
use tracker_miners.FileNotifier.Crawl.{handle_file_from_filesystem, handle_children}

-- query_execute_cb, query_root_info_cb, enumerate_children_cb and enumerator_next_files_cb
pub data Callback (File : Type 0) : Type 0 where
  query_execute : Callback File
  query_root_info enumerate_children next_files : File → Callback File

pub record Flight (File : Type 0) : Type 0 where
  pub root : ℕ
  pub callback : Callback File
  pub cancelled : Bool

-- What an answer holds: whether the query has a cursor, whether a call of GIO fails with an error that
-- is not a cancellation, and what that call gives. A cancelled call has no answer but that it is.
pub record Answer (File : Type 0) : Type 0 where
  pub has_cursor : Bool
  pub failed : Bool
  pub info : FileInfo
  pub infos : List (File × FileInfo)

-- TrackerFileNotifierPrivate, with whether its monitor is enabled. `cancellable` is that of a root.
pub record FileNotifier (File Name : Type 0) : Type 0 where
  pub pending_index_roots : List (IndexRoot File Name)
  pub current_index_root : Option (IndexRoot File Name)
  pub cancellable : Option ℕ
  pub stopped : Bool
  pub high_water : Bool
  pub active : Bool
  pub monitor_enabled : Bool
  pub next_id : ℕ
  pub flights : List (Flight File)
  pub outputs : List (Output File)

abbrev pub n_enumerator_batch_items : ℕ
n_enumerator_batch_items = 200

module _ {File : Type 0} where
  -- g_cancellable_cancel, for the calls in flight
  unfoldable pub cancel_flights : ℕ → List (Flight File) → List (Flight File)
  cancel_flights i [] = []
  cancel_flights i (f ∷ fs) =
      record f { cancelled = f.cancelled || nat_eq f.root i } ∷ cancel_flights i fs

  -- the flight at a place, and the others
  unfoldable pub take_flight : ℕ → List (Flight File) → Option (Flight File × List (Flight File))
  take_flight k [] = none
  take_flight zero (f ∷ fs) = some (f, fs)
  take_flight (suc k) (f ∷ fs) = elim (take_flight k fs) [
    | none ↦ none
    | some (g, rest) ↦ some (g, f ∷ rest)
  ]

module _ {File Name : Type 0} where
  abbrev pub file_notifier_init : FileNotifier File Name
  file_notifier_init = record {
    pending_index_roots = [];
    current_index_root = none;
    cancellable = none;
    stopped = true;
    high_water = false;
    active = false;
    monitor_enabled = true;
    next_id = 0;
    flights = [];
    outputs = [];
  }

  abbrev pub emit : List (Output File) → FileNotifier File Name → FileNotifier File Name
  emit outputs n = record n { outputs = n.outputs ++ outputs }

  -- check_disable_monitor, with the folder count, which a query that fails does not give, and the limit
  -- of the monitor
  unfoldable pub check_disable_monitor :
      Option ℕ → ℕ → FileNotifier File Name → FileNotifier File Name
  check_disable_monitor none limit n = n
  check_disable_monitor (some count) limit n =
      if ltb limit count
      then emit (monitor_set_enabled false ∷ []) (record n { monitor_enabled = false })
      else n

  -- tracker_file_notifier_new
  abbrev pub file_notifier_new : Option ℕ → ℕ → FileNotifier File Name
  file_notifier_new count limit = check_disable_monitor count limit file_notifier_init

  abbrev pub cancel_root : ℕ → IndexRoot File Name → IndexRoot File Name
  cancel_root i r = record r { cancelled = r.cancelled || nat_eq r.id i }

  abbrev pub cancel_current : ℕ → Option (IndexRoot File Name) → Option (IndexRoot File Name)
  cancel_current i none = none
  cancel_current i (some r) = some (cancel_root i r)

  -- g_cancellable_cancel (priv->cancellable), if there is one
  abbrev pub cancel : Option ℕ → FileNotifier File Name → FileNotifier File Name
  cancel none n = n
  cancel (some i) n = record n {
    flights = cancel_flights i n.flights;
    current_index_root = cancel_current i n.current_index_root;
  }

  abbrev pub launch :
      Callback File → IndexRoot File Name → FileNotifier File Name → FileNotifier File Name
  launch callback r n = record n {
    current_index_root = some r;
    flights =
        n.flights ++ record { root = r.id; callback = callback; cancelled = r.cancelled } ∷ [];
  }

  abbrev pub directory_finished_output : IndexRoot File Name → Output File
  directory_finished_output r =
      directory_finished r.root r.directories_found r.directories_ignored r.files_found
        r.files_ignored

  -- check_high_water: whether the crawl is held
  abbrev pub held : FileNotifier File Name → FileNotifier File Name
  held n = record n { active = false }

  -- tracker_index_root_query_contents, on the root that is the current one, with its flags for ignored
  -- and preserved directories
  abbrev pub query_with :
      Bool → Bool → IndexRoot File Name → FileNotifier File Name → Bool × FileNotifier File Name
  query_with false preserve r n = (
    true,
    launch query_execute r (emit (directory_started r.root ∷ []) (record n { active = true })),
  )
  query_with true true r n = (false, n)
  query_with true false r n = (false, emit (file_deleted r.root true ∷ []) n)

  abbrev pub query_contents :
      IndexRoot File Name → FileNotifier File Name → Bool × FileNotifier File Name
  query_contents r n =
      query_with (flag_ignore r.flags) (flag_preserve r.flags) r
        (record n { cancellable = some r.id })

  -- tracker_file_notifier_real_finished
  abbrev pub real_finished : FileNotifier File Name → FileNotifier File Name
  real_finished n =
      if n.monitor_enabled
      then n
      else emit (monitor_set_enabled true ∷ []) (record n { monitor_enabled = true })

  -- the loop of notifier_check_next_root
  unfoldable pub next_root :
      List (IndexRoot File Name) → FileNotifier File Name → FileNotifier File Name
  next_root [] n = real_finished (emit (finished ∷ []) (record n { pending_index_roots = [] }))
  next_root (r ∷ rs) n =
      let (queried, m) =
        query_contents r (record n { pending_index_roots = rs; current_index_root = some r }) in
      let rest = next_root rs (record m { current_index_root = none }) in
      if queried then m else rest

  unfoldable pub check_next_root : FileNotifier File Name → FileNotifier File Name
  check_next_root n =
      if n.stopped
      then n
      else next_root n.pending_index_roots (record n { current_index_root = none })

  abbrev pub add_root :
      Bool → IndexRoot File Name → List (IndexRoot File Name) → List (IndexRoot File Name)
  add_root priority r rs = if priority then r ∷ rs else rs ++ r ∷ []

  unfoldable pub queue_root : File → ℕ → Bool → FileNotifier File Name → FileNotifier File Name
  queue_root f flags ignore_root n =
      let m = record n {
        pending_index_roots =
            add_root (flag_priority flags) (index_root_new n.next_id f flags ignore_root)
              n.pending_index_roots;
        next_id = suc n.next_id;
      } in
      if is_some n.current_index_root then m else check_next_root m

  -- tracker_index_root_continue_cursor: whether it takes care of the root, which has a cursor or not,
  -- while there are too many items or not
  abbrev pub cursor_with :
      Bool → Bool → IndexRoot File Name → FileNotifier File Name → Bool × FileNotifier File Name
  cursor_with false high_water r n = (false, record n { current_index_root = some r })
  cursor_with true true r n = (true, held (record n { current_index_root = some r }))
  cursor_with true false r n =
      (true, record n { current_index_root = some (record r { idle = true }) })

  abbrev pub continue_cursor :
      IndexRoot File Name → FileNotifier File Name → Bool × FileNotifier File Name
  continue_cursor r n = cursor_with r.has_cursor n.high_water r n

module _ {File Name : Type 0} ⦃ops : FileOps File⦄ ⦃names : Eq Name⦄ where
  -- tracker_index_root_crawl_next
  abbrev pub monitor_outputs : Surroundings File Name → File → List (Output File)
  monitor_outputs env directory =
      if flag_monitor (env.root_flags directory) then monitor_add directory ∷ [] else []

  abbrev pub crawl_callback : IndexRoot File Name → File → Bool → Callback File
  crawl_callback r directory is_root =
      if is_root && not r.ignore_root
      then query_root_info directory
      else enumerate_children directory

  abbrev pub crawl_directory :
      Surroundings File Name
      → List (File × Bool)
      → IndexRoot File Name
      → FileNotifier File Name
      → Bool × FileNotifier File Name
  crawl_directory env [] r n = (false, n)
  crawl_directory env ((directory, is_root) ∷ dirs) r n =
      let r' = record r { pending_dirs = dirs; current_dir = some directory } in
      (
        true,
        launch (crawl_callback r directory is_root) r'
            (emit (monitor_outputs env directory) (record n { active = true })),
      )

  abbrev pub crawl_with :
      Bool
      → Surroundings File Name
      → List (File × Bool)
      → IndexRoot File Name
      → FileNotifier File Name
      → Bool × FileNotifier File Name
  crawl_with true env dirs r n = (true, held n)
  crawl_with false env dirs r n = crawl_directory env dirs r n

  abbrev pub crawl_next :
      Surroundings File Name
      → IndexRoot File Name
      → FileNotifier File Name
      → Bool × FileNotifier File Name
  crawl_next env r n = crawl_with n.high_water env r.pending_dirs r n

  -- tracker_index_root_continue
  abbrev pub finish_root :
      IndexRoot File Name → FileNotifier File Name → Option (FileNotifier File Name)
  finish_root r n = notify_changes r >>= λ (outputs, r'). some (
      check_next_root (
        emit (outputs ++ directory_finished_output r' ∷ [])
          (record n { current_index_root = some r' })))

  unfoldable pub continue_root :
      Surroundings File Name
      → IndexRoot File Name
      → FileNotifier File Name
      → Option (FileNotifier File Name)
  continue_root env r n =
      let (reading, m) = continue_cursor r n in
      if reading
      then some m
      else let (crawling, k) = crawl_next env r m in if crawling then some k else finish_root r k

  -- query_execute_cb
  unfoldable pub query_execute_cb :
      Answer File → IndexRoot File Name → FileNotifier File Name → Option (FileNotifier File Name)
  query_execute_cb a r n =
      if a.has_cursor
      then some (continue_cursor (record r { has_cursor = true }) n).1
      else some (emit (directory_finished_output r ∷ []) n)

  -- query_root_info_cb
  unfoldable pub query_root_info_cb :
      Surroundings File Name
      → File
      → Answer File
      → IndexRoot File Name
      → FileNotifier File Name
      → Option (FileNotifier File Name)
  query_root_info_cb env f a r n =
      if a.failed
      then continue_root env r n
      else let (r', outputs) = handle_file_from_filesystem env r f a.info in
        some (launch (enumerate_children f) r' (emit outputs n))

  -- enumerate_children_cb
  unfoldable pub enumerate_children_cb :
      Surroundings File Name
      → File
      → Answer File
      → IndexRoot File Name
      → FileNotifier File Name
      → Option (FileNotifier File Name)
  enumerate_children_cb env f a r n =
      if a.failed then continue_root env r n else some (launch (next_files f) r n)

  -- enumerator_next_files_cb
  unfoldable pub enumerator_next_files_cb :
      Surroundings File Name
      → File
      → Answer File
      → IndexRoot File Name
      → FileNotifier File Name
      → Option (FileNotifier File Name)
  enumerator_next_files_cb env f a r n =
      if a.failed
      then continue_root env r n
      else let (r', outputs) = handle_children env a.infos r in
        if nat_eq (length a.infos) n_enumerator_batch_items
        then some (launch (next_files f) r' (emit outputs n))
        else continue_root env r' (emit outputs n)

  abbrev pub run_callback :
      Surroundings File Name
      → Callback File
      → Answer File
      → IndexRoot File Name
      → FileNotifier File Name
      → Option (FileNotifier File Name)
  run_callback env query_execute a r n = query_execute_cb a r n
  run_callback env (query_root_info f) a r n = query_root_info_cb env f a r n
  run_callback env (enumerate_children f) a r n = enumerate_children_cb env f a r n
  run_callback env (next_files f) a r n = enumerator_next_files_cb env f a r n

  -- the root that a callback is given, if it is the current one
  abbrev pub root_at : ℕ → Option (IndexRoot File Name) → Option (IndexRoot File Name)
  root_at i none = none
  root_at i (some r) = if nat_eq r.id i then some r else none

  -- A flight is answered. All callbacks return at once when it was cancelled.
  unfoldable pub answer_flight :
      Surroundings File Name
      → Flight File
      → Answer File
      → FileNotifier File Name
      → Option (FileNotifier File Name)
  answer_flight env f a n =
      if f.cancelled
      then some n
      else root_at f.root n.current_index_root >>= λ r. run_callback env f.callback a r n
