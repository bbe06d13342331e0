-- ===== src/FileNotifier/Monitored.antt =====
-- src/miners/fs/tracker-file-notifier.c and tracker-monitor.c: the signals of the monitor.
use tracker_miners.Base.{
  Bool, true, false, not, ◌&&◌, ◌||◌, Option, none, some, List, [], ◌∷◌, if◌then◌else◌, Eq,
}
use tracker_miners.Base.Files.{FileOps}
use tracker_miners.FileNotifier.{
  FileInfo, Surroundings, IndexRoot, Output, file_created, file_updated, file_attributes_updated,
  file_deleted, file_moved, monitor_remove_recursively, monitor_remove_children_recursively,
  monitor_move, flag_recurse, same_name,
}
use tracker_miners.FileNotifier.Crawl.{index_root_remove_directory}
use tracker_miners.FileNotifier.Roots.{FileNotifier, emit, queue_root}

-- the signals of a monitor, with whether the file is a directory
pub data MonitorSignal (File : Type 0) : Type 0 where
  item_created item_updated item_attribute_updated item_deleted : File → Bool → MonitorSignal File
  item_moved : File → File → Bool → MonitorSignal File

-- create_shallow_file_info. That the file is hidden follows from its name.
abbrev pub create_shallow_file_info : Bool → FileInfo
create_shallow_file_info is_directory = record {
  is_directory = is_directory;
  mtime = 0;
  is_mountpoint = false;
}

module _ {File Name : Type 0} ⦃ops : FileOps File⦄ ⦃names : Eq Name⦄ where
  -- file_notifier_current_root_check_remove_directory
  abbrev pub remove_directory : File → Option (IndexRoot File Name) → Option (IndexRoot File Name)
  remove_directory directory none = none
  remove_directory directory (some r) = some (index_root_remove_directory r directory)

  abbrev pub check_remove_directory : File → FileNotifier File Name → FileNotifier File Name
  check_remove_directory f n = record n {
    current_index_root = remove_directory f n.current_index_root;
  }

  abbrev pub emit_if : Bool → List (Output File) → FileNotifier File Name → FileNotifier File Name
  emit_if b outputs n = if b then emit outputs n else n

  -- a file other than a directory, with its parent
  abbrev pub created_file :
      Surroundings File Name → File → Option File → FileNotifier File Name → FileNotifier File Name
  created_file env f none n = emit_if (env.file_is_indexable f none) (file_created f ∷ []) n
  created_file env f (some parent) n =
      if env.parent_is_indexable parent
      then emit_if (env.file_is_indexable f none) (file_created f ∷ []) n
      else emit (monitor_remove_recursively parent ∷ [])
          (check_remove_directory parent (emit (file_deleted parent true ∷ []) n))

  -- monitor_item_created_cb
  unfoldable pub item_created_cb :
      Surroundings File Name → File → Bool → FileNotifier File Name → FileNotifier File Name
  item_created_cb env f false n = created_file env f (env.get_parent f) n
  item_created_cb env f true n =
      if env.file_is_indexable f none
      then emit (file_created f ∷ [])
          (if flag_recurse (env.root_flags f) then queue_root f (env.root_flags f) true n else n)
      else n

  -- monitor_item_deleted_cb
  unfoldable pub item_deleted_cb :
      Surroundings File Name → File → Bool → FileNotifier File Name → FileNotifier File Name
  item_deleted_cb env f is_directory n =
      let m =
        if is_directory && env.file_is_root f
        then emit (monitor_remove_children_recursively f ∷ []) n
        else emit_if is_directory (monitor_remove_recursively f ∷ []) n in
      if env.file_is_indexable f none
      then check_remove_directory f
          (emit (file_deleted f (is_directory || env.is_stored_directory f) ∷ []) m)
      else m

  -- the source was not indexable, and the destination may be
  abbrev pub moved_in :
      Surroundings File Name → File → Bool → FileNotifier File Name → FileNotifier File Name
  moved_in env g is_directory n =
      if not is_directory || not (flag_recurse (env.root_flags g))
      then emit (file_created g ∷ []) n
      else queue_root g (env.root_flags g) false n

  -- the source and the destination are indexable
  abbrev pub moved_directory :
      Surroundings File Name → File → File → FileNotifier File Name → FileNotifier File Name
  moved_directory env f g n =
      let m = emit (monitor_move f g ∷ []) n in
      if not (flag_recurse (env.root_flags f)) && flag_recurse (env.root_flags g)
      then queue_root g (env.root_flags g) true m
      else m

  abbrev pub extension_changed : Surroundings File Name → File → File → Bool
  extension_changed env f g = not (same_name (env.get_extension f) (env.get_extension g))

  abbrev pub moved_inside :
      Surroundings File Name → File → File → Bool → FileNotifier File Name → FileNotifier File Name
  moved_inside env f g is_directory n = emit_if (extension_changed env f g) (file_updated g ∷ []) (
      emit (file_moved f g is_directory ∷ [])
        (if is_directory then moved_directory env f g n else n))

  -- monitor_item_moved_cb, with whether the source is monitored
  unfoldable pub item_moved_cb :
      Surroundings File Name
      → File
      → File
      → Bool
      → Bool
      → FileNotifier File Name
      → FileNotifier File Name
  item_moved_cb env f g is_directory false n =
      if is_directory
      then queue_root g (env.root_flags g) false (emit (monitor_remove_recursively f ∷ []) n)
      else n
  item_moved_cb env f g is_directory true n =
      let info = some (create_shallow_file_info is_directory) in
      let m = emit_if is_directory (monitor_remove_recursively f ∷ []) n in
      if not (env.file_is_indexable f info)
      then if env.file_is_indexable g info then moved_in env g is_directory m else m
      else if not (env.file_is_indexable g info)
      then check_remove_directory f (emit (file_deleted f is_directory ∷ []) m)
      else moved_inside env f g is_directory n

  -- The callbacks of the signals; tracker_monitor_emit_moved takes every source to be monitored.
  unfoldable pub handle_signal :
      Surroundings File Name → MonitorSignal File → FileNotifier File Name → FileNotifier File Name
  handle_signal env (item_created f b) n = item_created_cb env f b n
  handle_signal env (item_updated f b) n =
      emit_if (env.file_is_indexable f none) (file_updated f ∷ []) n
  handle_signal env (item_attribute_updated f b) n =
      emit_if (env.file_is_indexable f none) (file_attributes_updated f ∷ []) n
  handle_signal env (item_deleted f b) n = item_deleted_cb env f b n
  handle_signal env (item_moved f g b) n = item_moved_cb env f g b true n
