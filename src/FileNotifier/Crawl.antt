-- ===== src/FileNotifier/Crawl.antt =====
-- src/miners/fs/tracker-file-notifier.c: what is done with a file that the store or the directory lists.
use tracker_miners.Base.{
  ℕ, suc, Bool, true, false, not, ◌&&◌, ◌||◌, Option, none, some, List, [], ◌∷◌, ◌++◌, filter,
  if◌then◌else◌, Eq, ◌==◌,
}
use tracker_miners.Base.Files.{FileOps, file_Eq, has_prefix, has_parent}
use tracker_miners.FileNotifier.{
  FileInfo, Surroundings, FileData, IndexRoot, Output, monitor_add, create, update, delete,
  extractor_update, flag_recurse, flag_monitor, same_state, notify, check_directory_contents,
  check_contents_outputs, insert_disk_info, insert_store_info, free_data,
}

-- A row of the cursor, and what g_file_query_info gives for its file.
pub record Row (File Name : Type 0) : Type 0 where
  pub file : File
  pub is_folder : Bool
  pub mtime : ℕ
  pub hash : Option Name
  pub mimetype : Option Name
  pub info : Option FileInfo

abbrev pub mountpoint : Option FileInfo → Bool
mountpoint none = false
mountpoint (some info) = info.is_mountpoint

abbrev pub any {ℓ} : {A : Type ℓ} → (A → Bool) → List A → Bool
any test [] = false
any test (x ∷ xs) = test x || any test xs

module _ {File : Type 0} ⦃ops : FileOps File⦄ where
  abbrev pub is_object : Option File → File → Bool
  is_object none f = false
  is_object (some g) f = g == f

module _ {File Name : Type 0} ⦃ops : FileOps File⦄ where
  -- g_queue_find_custom of a file in the pending directories, with file_is_equal
  abbrev pub is_pending : IndexRoot File Name → File → Bool
  is_pending r f = any (λ d. d.0 == f) r.pending_dirs

  -- the same of a parent, with file_is_equal_or_child
  abbrev pub parent_is_pending : IndexRoot File Name → Option File → Bool
  parent_is_pending r none = false
  parent_is_pending r (some parent) =
      any (λ d. parent == d.0 || has_parent parent d.0) r.pending_dirs

  -- the file is in a directory that is deleted: file_is_equal_or_descendant
  abbrev pub is_deleted : IndexRoot File Name → File → Bool
  is_deleted r f = any (λ d. f == d || has_prefix f d) r.deleted_dirs

  -- tracker_index_root_remove_directory
  abbrev pub index_root_remove_directory : IndexRoot File Name → File → IndexRoot File Name
  index_root_remove_directory r directory = record r {
    pending_dirs = filter (λ d. not (d.0 == directory || has_prefix d.0 directory)) r.pending_dirs;
  }

module _ {File Name : Type 0} ⦃ops : FileOps File⦄ ⦃names : Eq Name⦄ where
  -- the tests that stand before check_directory_contents
  abbrev pub may_be_queued : IndexRoot File Name → FileInfo → FileData File Name → Bool
  may_be_queued r info d =
      info.is_directory
      && same_state d.state create
      && flag_recurse r.flags
      && not (is_object r.current_dir d.file)

  abbrev pub queue_child :
      Surroundings File Name
      → IndexRoot File Name
      → FileInfo
      → FileData File Name
      → IndexRoot File Name × List (Output File)
  queue_child env r info d =
      if may_be_queued r info d
      then (
        if check_directory_contents env d.file && not info.is_mountpoint
            then record r { pending_dirs = r.pending_dirs ++ (d.file, false) ∷ [] }
            else r,
        check_contents_outputs env d.file,
      )
      else (r, [])

  unfoldable pub handle_file_from_filesystem :
      Surroundings File Name
      → IndexRoot File Name
      → File
      → FileInfo
      → IndexRoot File Name × List (Output File)
  handle_file_from_filesystem env r f info =
      let (d, r1) = insert_disk_info env r f info in
      let (r2, outputs) = queue_child env r1 info d in (free_data f r2, outputs ++ notify d)

  abbrev pub insert_info :
      Surroundings File Name
      → Option FileInfo
      → FileData File Name × IndexRoot File Name
      → FileData File Name × IndexRoot File Name
  insert_info env none (d, r) = (d, r)
  insert_info env (some info) (d, r) = insert_disk_info env r d.file info

  -- a directory that is not deleted: it is monitored and, if it changed, crawled
  abbrev pub follow_directory :
      IndexRoot File Name → FileData File Name → IndexRoot File Name × List (Output File)
  follow_directory r d = (
    if (same_state d.state create || same_state d.state update) && not (is_pending r d.file)
        then record r { pending_dirs = (d.file, false) ∷ r.pending_dirs }
        else r,
    if flag_monitor r.flags then monitor_add d.file ∷ [] else [],
  )

  abbrev pub is_followed : IndexRoot File Name → Option FileInfo → FileData File Name → Bool
  is_followed r info d =
      d.is_dir_in_disk && (flag_recurse r.flags && not (mountpoint info) || r.root == d.file)

  abbrev pub handle_directory :
      Surroundings File Name
      → IndexRoot File Name
      → Option FileInfo
      → FileData File Name
      → IndexRoot File Name × List (Output File)
  handle_directory env r info d =
      if same_state d.state delete && (d.is_dir_in_store || d.is_dir_in_disk)
      then (record r { deleted_dirs = d.file ∷ r.deleted_dirs }, [])
      else if is_followed r info d
      then if check_directory_contents env d.file
        then follow_directory r d
        else (r, check_contents_outputs env d.file)
      else (r, [])

  -- whether changes of the file are told at once, or the crawl of its directory is waited for
  abbrev pub is_told : Surroundings File Name → IndexRoot File Name → FileData File Name → Bool
  is_told env r d =
      same_state d.state delete
      || same_state d.state extractor_update
      || not (parent_is_pending r (env.get_parent d.file))

  abbrev pub tell :
      Surroundings File Name
      → FileData File Name
      → IndexRoot File Name × List (Output File)
      → IndexRoot File Name × List (Output File)
  tell env d (r, outputs) =
      if is_told env r d then (free_data d.file r, outputs ++ notify d) else (r, outputs)

  unfoldable pub handle_file_from_cursor :
      Surroundings File Name
      → IndexRoot File Name
      → Row File Name
      → IndexRoot File Name × List (Output File)
  handle_file_from_cursor env r row =
      if is_deleted r row.file
      then (r, [])
      else let (d, r') =
          insert_info env row.info
            (insert_store_info env r row.file row.is_folder row.hash row.mimetype row.mtime) in
        tell env d (handle_directory env r' row.info d)

  -- the loop of handle_cursor
  unfoldable pub handle_rows :
      Surroundings File Name
      → List (Row File Name)
      → IndexRoot File Name
      → IndexRoot File Name × List (Output File)
  handle_rows env [] r = (r, [])
  handle_rows env (row ∷ rows) r =
      let (r1, first) = handle_file_from_cursor env r row in
      let (r2, later) = handle_rows env rows (record r1 { cursor_has_content = true }) in
      (r2, first ++ later)

  -- check_directory, on the current root
  abbrev pub check_directory : Surroundings File Name → IndexRoot File Name → File → FileInfo → Bool
  check_directory env r directory info =
      if env.file_is_root directory && not (r.root == directory)
      then false
      else env.file_is_indexable directory (some info)

  abbrev pub count_found : Bool → IndexRoot File Name → IndexRoot File Name
  count_found is_directory r =
      if is_directory
      then record r { directories_found = suc r.directories_found }
      else record r { files_found = suc r.files_found }

  abbrev pub count_ignored : Bool → IndexRoot File Name → IndexRoot File Name
  count_ignored is_directory r =
      if is_directory
      then record r { directories_ignored = suc r.directories_ignored }
      else record r { files_ignored = suc r.files_ignored }

  -- check_directory or check_file
  abbrev pub check_child : Surroundings File Name → IndexRoot File Name → File → FileInfo → Bool
  check_child env r f info =
      if info.is_directory
      then check_directory env r f info
      else env.file_is_indexable f (some info)

  -- the body of the loop of enumerator_next_files_cb
  unfoldable pub handle_child :
      Surroundings File Name
      → IndexRoot File Name
      → File
      → FileInfo
      → IndexRoot File Name × List (Output File)
  handle_child env r f info =
      if check_child env r f info
      then handle_file_from_filesystem env (count_found info.is_directory r) f info
      else (count_ignored info.is_directory (count_found info.is_directory r), [])

  unfoldable pub handle_children :
      Surroundings File Name
      → List (File × FileInfo)
      → IndexRoot File Name
      → IndexRoot File Name × List (Output File)
  handle_children env [] r = (r, [])
  handle_children env ((f, info) ∷ infos) r =
      let (r1, first) = handle_child env r f info in
      let (r2, later) = handle_children env infos r1 in (r2, first ++ later)
