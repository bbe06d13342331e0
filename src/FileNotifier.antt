-- ===== src/FileNotifier.antt =====
-- src/miners/fs/tracker-file-notifier.c: the comparison of the files on disk with those in the store.
-- Here are the data of a file and the cache of an index root. The pointers of the queue of a root lead
-- to data in its cache, and are the files of these data. Strings are of a type `Name`, times are numbers.
-- What a function tells the others, by signals and by calls of the monitor, is a list of outputs.
pub mod Crawl
pub mod Roots
pub mod Monitored
pub mod Events
pub mod Reentry
mod Cached
mod Crawled
mod Sound
mod Continues
mod Answers
mod Kept
mod Switches
mod Steps
pub mod Runs
mod Stalled
pub mod Compared
pub mod Disk
pub mod Rows
mod Examples
use tracker_miners.Base.{
  ℕ, ◌/◌, ◌%◌, Bool, true, false, ◌||◌, Option, none, some, List, [], ◌∷◌, ◌++◌, nat_eq,
  if◌then◌else◌, Eq, ◌==◌, Table, lookup, insert, remove_key,
}
use tracker_miners.Base.Files.{FileOps, file_Eq}

-- what the code reads of a GFileInfo
pub record FileInfo : Type 0 where
  pub is_directory : Bool
  pub mtime : ℕ
  pub is_mountpoint : Bool

-- What the notifier asks the indexing tree, GIO and the module manager for, at the time of a call.
pub record Surroundings (File Name : Type 0) : Type 0 where
  pub file_is_indexable : File → Option FileInfo → Bool
  pub parent_is_indexable : File → Bool
  pub file_is_root : File → Bool
  pub root_flags : File → ℕ
  pub get_parent : File → Option File
  pub get_hash : Name → Option Name
  -- strrchr (g_file_get_basename (file), '.')
  pub get_extension : File → Option Name
  -- whether the store has a file as an "inode/directory"
  pub is_stored_directory : File → Bool

pub data FileState : Type 0 where
  unchanged create update delete extractor_update : FileState

-- TrackerFileData
pub record FileData (File Name : Type 0) : Type 0 where
  pub file : File
  pub in_disk : Bool
  pub in_store : Bool
  pub is_dir_in_disk : Bool
  pub is_dir_in_store : Bool
  pub state : FileState
  pub store_mtime : ℕ
  pub disk_mtime : ℕ
  pub extractor_hash : Option Name
  pub mimetype : Option Name

-- signals of the notifier, and calls of tracker_monitor_<name>
pub data Output (File : Type 0) : Type 0 where
  file_created file_updated directory_started : File → Output File
  -- file-updated with attributes_only
  file_attributes_updated : File → Output File
  file_deleted : File → Bool → Output File
  file_moved : File → File → Bool → Output File
  directory_finished : File → ℕ → ℕ → ℕ → ℕ → Output File
  finished : Output File
  monitor_set_enabled : Bool → Output File
  monitor_add monitor_remove monitor_remove_recursively : File → Output File
  monitor_remove_children_recursively : File → Output File
  monitor_move : File → File → Output File

-- TrackerIndexRoot, with a number that stands for its address. A directory that is pending comes with
-- whether it is the object `root` itself. `idle` tells whether cursor_idle_id is set, and `cancelled`
-- whether the cancellable is cancelled.
pub record IndexRoot (File Name : Type 0) : Type 0 where
  pub id : ℕ
  pub root : File
  pub flags : ℕ
  pub ignore_root : Bool
  pub cancelled : Bool
  pub has_cursor : Bool
  pub idle : Bool
  pub cursor_has_content : Bool
  pub cache : Table File (FileData File Name)
  pub queue : List File
  pub deleted_dirs : List File
  pub pending_dirs : List (File × Bool)
  pub current_dir : Option File
  pub directories_found : ℕ
  pub directories_ignored : ℕ
  pub files_found : ℕ
  pub files_ignored : ℕ

-- TRACKER_DIRECTORY_FLAG_<NAME>, bits 1, 3, 4, 5 and 6
abbrev pub flag_recurse : ℕ → Bool
flag_recurse flags = nat_eq (flags / 2 % 2) 1

abbrev pub flag_monitor : ℕ → Bool
flag_monitor flags = nat_eq (flags / 8 % 2) 1

abbrev pub flag_ignore : ℕ → Bool
flag_ignore flags = nat_eq (flags / 16 % 2) 1

abbrev pub flag_preserve : ℕ → Bool
flag_preserve flags = nat_eq (flags / 32 % 2) 1

abbrev pub flag_priority : ℕ → Bool
flag_priority flags = nat_eq (flags / 64 % 2) 1

abbrev pub same_state : FileState → FileState → Bool
same_state unchanged unchanged = true
same_state create create = true
same_state update update = true
same_state delete delete = true
same_state extractor_update extractor_update = true
same_state _ _ = false

-- g_strcmp0 (a, b) == 0
abbrev pub same_name : {Name : Type 0} ⦃names : Eq Name⦄ → Option Name → Option Name → Bool
same_name none none = true
same_name (some a) (some b) = a == b
same_name _ _ = false

module _ {File Name : Type 0} where
  abbrev pub index_root_new : ℕ → File → ℕ → Bool → IndexRoot File Name
  index_root_new id file flags ignore_root = record {
    id = id;
    root = file;
    flags = flags;
    ignore_root = ignore_root;
    cancelled = false;
    has_cursor = false;
    idle = false;
    cursor_has_content = false;
    cache = [];
    queue = [];
    deleted_dirs = [];
    pending_dirs = [];
    current_dir = none;
    directories_found = 0;
    directories_ignored = 0;
    files_found = 0;
    files_ignored = 0;
  }

  -- g_slice_new0
  abbrev pub new_data : File → FileData File Name
  new_data f = record {
    file = f;
    in_disk = false;
    in_store = false;
    is_dir_in_disk = false;
    is_dir_in_store = false;
    state = unchanged;
    store_mtime = 0;
    disk_mtime = 0;
    extractor_hash = none;
    mimetype = none;
  }

  -- tracker_file_notifier_notify
  unfoldable pub notify : FileData File Name → List (Output File)
  notify d = elim d.state [
    | delete ↦ file_deleted d.file d.is_dir_in_store ∷ []
    | create ↦ file_created d.file ∷ []
    | update ↦ file_updated d.file ∷ []
    | extractor_update ↦ file_updated d.file ∷ []
    | unchanged ↦ []
  ]

module _ {File : Type 0} ⦃ops : FileOps File⦄ where
  -- g_queue_delete_link
  unfoldable pub delete_link : File → List File → List File
  delete_link f [] = []
  delete_link f (g ∷ gs) = let rest = delete_link f gs in if g == f then gs else g ∷ rest

module _ {File Name : Type 0} ⦃ops : FileOps File⦄ ⦃names : Eq Name⦄ where
  -- check_directory_contents, with its call of the monitor
  abbrev pub check_directory_contents : Surroundings File Name → File → Bool
  check_directory_contents env parent = env.file_is_root parent || env.parent_is_indexable parent

  abbrev pub check_contents_outputs : Surroundings File Name → File → List (Output File)
  check_contents_outputs env parent =
      if check_directory_contents env parent then [] else monitor_remove parent ∷ []

  abbrev pub state_of : Surroundings File Name → FileData File Name → FileState
  state_of env d =
      if d.in_disk
      then if d.in_store
        then if nat_eq d.store_mtime d.disk_mtime
          then elim d.mimetype [
            | none ↦ unchanged
            | some m ↦
                if same_name d.extractor_hash (env.get_hash m) then unchanged else extractor_update
          ]
          else update
        else create
      else if d.in_store
      then delete
      else unchanged

  abbrev pub update_state : Surroundings File Name → FileData File Name → FileData File Name
  update_state env d = record d { state = state_of env d }

  abbrev pub ensured :
      Option (FileData File Name)
      → IndexRoot File Name
      → File
      → FileData File Name × IndexRoot File Name
  ensured (some d) r f = (d, r)
  ensured none r f =
      (new_data f, record r { cache = insert f (new_data f) r.cache; queue = f ∷ r.queue })

  unfoldable pub ensure_file_data :
      IndexRoot File Name → File → FileData File Name × IndexRoot File Name
  ensure_file_data r f = ensured (lookup f r.cache) r f

  -- a change of data that the cache leads to
  abbrev pub write_data : File → FileData File Name → IndexRoot File Name → IndexRoot File Name
  write_data f d r = record r { cache = insert f d r.cache }

  unfoldable pub insert_disk_info :
      Surroundings File Name
      → IndexRoot File Name
      → File
      → FileInfo
      → FileData File Name × IndexRoot File Name
  insert_disk_info env r f info =
      let (d, r') = ensure_file_data r f in
      let e = update_state env (record d {
        in_disk = true;
        is_dir_in_disk = info.is_directory;
        disk_mtime = info.mtime;
      }) in
      (e, write_data f e r')

  unfoldable pub insert_store_info :
      Surroundings File Name
      → IndexRoot File Name
      → File
      → Bool
      → Option Name
      → Option Name
      → ℕ
      → FileData File Name × IndexRoot File Name
  insert_store_info env r f is_directory hash mimetype mtime =
      let (d, r') = ensure_file_data r f in
      let e = update_state env (record d {
        in_store = true;
        is_dir_in_store = is_directory;
        extractor_hash = hash;
        mimetype = mimetype;
        store_mtime = mtime;
      }) in
      (e, write_data f e r')

  -- the data of a file leave the queue and the cache, and are freed
  unfoldable pub free_data : File → IndexRoot File Name → IndexRoot File Name
  free_data f r = record r { queue = delete_link f r.queue; cache = remove_key f r.cache }

  -- tracker_index_root_notify_changes, which takes the queue from its tail
  unfoldable pub notify_loop :
      List File
      → Table File (FileData File Name)
      → Option (List (Output File) × Table File (FileData File Name))
  notify_loop [] cache = some ([], cache)
  notify_loop (f ∷ fs) cache = elim (notify_loop fs cache) [
    | none ↦ none
    | some (outputs, left) ↦ elim (lookup f left) [
      | none ↦ none
      | some d ↦ some (outputs ++ notify d, remove_key d.file left)
    ]
  ]

  abbrev pub emptied :
      IndexRoot File Name
      → Option (List (Output File) × Table File (FileData File Name))
      → Option (List (Output File) × IndexRoot File Name)
  emptied r none = none
  emptied r (some (outputs, left)) = some (outputs, record r { queue = []; cache = left })

  unfoldable pub notify_changes :
      IndexRoot File Name → Option (List (Output File) × IndexRoot File Name)
  notify_changes r = emptied r (notify_loop r.queue r.cache)
