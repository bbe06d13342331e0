-- ===== src/FileNotifier/Kept.antt =====
-- What the signals of the monitor leave, when the steps they are made of leave it.
use tracker_miners.Base.{
  ℕ, Bool, true, false, not, ◌&&◌, ◌||◌, Option, none, some, List, [], ◌∷◌, if◌then◌else◌, Eq,
}
use tracker_miners.Base.Files.{FileOps}
use tracker_miners.FileNotifier.{
  Surroundings, Output, file_created, file_updated, file_attributes_updated, file_deleted,
  file_moved, monitor_remove_recursively, monitor_remove_children_recursively, monitor_move,
  flag_recurse,
}
use tracker_miners.FileNotifier.Roots.{FileNotifier, emit, queue_root}
use tracker_miners.FileNotifier.Monitored.{
  MonitorSignal, item_created, item_updated, item_attribute_updated, item_deleted, item_moved,
  create_shallow_file_info, check_remove_directory, emit_if, created_file, moved_in,
  moved_directory, moved_inside, extension_changed, item_created_cb, item_deleted_cb, item_moved_cb,
  handle_signal,
}

module _ {File Name : Type 0} ⦃ops : FileOps File⦄ ⦃names : Eq Name⦄ where
  -- a predicate that outputs, new roots and the removal of a directory from the crawl leave
  pub record IsKept (P : FileNotifier File Name → Type 0) : Type 0 where
    pub emitted :
        (outputs : List (Output File)) (n : FileNotifier File Name) → P n → P (emit outputs n)
    pub queued :
        (f : File) (flags : ℕ) (b : Bool) (n : FileNotifier File Name)
        → P n
        → P (queue_root f flags b n)
    pub removed : (f : File) (n : FileNotifier File Name) → P n → P (check_remove_directory f n)

  module _ (P : FileNotifier File Name → Type 0) (kept : IsKept P) where
    pub Kept-if : (b : Bool) (m n : FileNotifier File Name) → P m → P n → P (if b then m else n)
    Kept-if true m n h k = h
    Kept-if false m n h k = k

    emit_if-Kept :
        (b : Bool) (outputs : List (Output File)) (n : FileNotifier File Name)
        → P n
        → P (emit_if b outputs n)
    emit_if-Kept true outputs n h = kept.emitted outputs n h
    emit_if-Kept false outputs n h = h

    created_file-Kept :
        (env : Surroundings File Name) (f : File) (o : Option File) (n : FileNotifier File Name)
        → P n
        → P (created_file env f o n)
    created_file-Kept env f none n h =
        emit_if-Kept (env.file_is_indexable f none) (file_created f ∷ []) n h
    created_file-Kept env f (some p) n h =
        let m = check_remove_directory p (emit (file_deleted p true ∷ []) n) in
        Kept-if (env.parent_is_indexable p)
          (emit_if (env.file_is_indexable f none) (file_created f ∷ []) n)
          (emit (monitor_remove_recursively p ∷ []) m)
          (emit_if-Kept (env.file_is_indexable f none) (file_created f ∷ []) n h)
          (kept.emitted (monitor_remove_recursively p ∷ []) m (
            kept.removed p (emit (file_deleted p true ∷ []) n)
              (kept.emitted (file_deleted p true ∷ []) n h)))

    created-Kept :
        (env : Surroundings File Name) (f : File) (b : Bool) (n : FileNotifier File Name)
        → P n
        → P (item_created_cb env f b n)
    unfolding item_created_cb
    created-Kept env f false n h = created_file-Kept env f (env.get_parent f) n h
    created-Kept env f true n h =
        let q = queue_root f (env.root_flags f) true n in
        let m = if flag_recurse (env.root_flags f) then q else n in
        Kept-if (env.file_is_indexable f none) (emit (file_created f ∷ []) m) n
          (kept.emitted (file_created f ∷ []) m (
            Kept-if (flag_recurse (env.root_flags f)) q n
              (kept.queued f (env.root_flags f) true n h) h))
          h

    deleted-Kept :
        (env : Surroundings File Name) (f : File) (b : Bool) (n : FileNotifier File Name)
        → P n
        → P (item_deleted_cb env f b n)
    unfolding item_deleted_cb
    deleted-Kept env f b n h =
        let x = emit (monitor_remove_children_recursively f ∷ []) n in
        let y = emit_if b (monitor_remove_recursively f ∷ []) n in
        let m = if b && env.file_is_root f then x else y in
        let at =
          Kept-if (b && env.file_is_root f) x y
            (kept.emitted (monitor_remove_children_recursively f ∷ []) n h)
            (emit_if-Kept b (monitor_remove_recursively f ∷ []) n h) in
        let told = file_deleted f (b || env.is_stored_directory f) ∷ [] in
        Kept-if (env.file_is_indexable f none) (check_remove_directory f (emit told m)) m
          (kept.removed f (emit told m) (kept.emitted told m at)) at

    moved_in-Kept :
        (env : Surroundings File Name) (g : File) (b : Bool) (n : FileNotifier File Name)
        → P n
        → P (moved_in env g b n)
    moved_in-Kept env g b n h =
        Kept-if (not b || not (flag_recurse (env.root_flags g))) (emit (file_created g ∷ []) n)
          (queue_root g (env.root_flags g) false n) (kept.emitted (file_created g ∷ []) n h)
          (kept.queued g (env.root_flags g) false n h)

    moved_inside-Kept :
        (env : Surroundings File Name) (f g : File) (b : Bool) (n : FileNotifier File Name)
        → P n
        → P (moved_inside env f g b n)
    moved_inside-Kept env f g b n h =
        let k = emit (monitor_move f g ∷ []) n in
        let q = queue_root g (env.root_flags g) true k in
        let crawl = not (flag_recurse (env.root_flags f)) && flag_recurse (env.root_flags g) in
        let m = if b then moved_directory env f g n else n in
        let at = kept.emitted (monitor_move f g ∷ []) n h in
        emit_if-Kept (extension_changed env f g) (file_updated g ∷ [])
          (emit (file_moved f g b ∷ []) m)
          (kept.emitted (file_moved f g b ∷ []) m (
            Kept-if b (moved_directory env f g n) n
              (Kept-if crawl q k (kept.queued g (env.root_flags g) true k at) at) h))

    moved-Kept :
        (env : Surroundings File Name) (f g : File) (b : Bool) (n : FileNotifier File Name)
        → P n
        → P (item_moved_cb env f g b true n)
    unfolding item_moved_cb
    moved-Kept env f g b n h =
        let info = some (create_shallow_file_info b) in
        let m = emit_if b (monitor_remove_recursively f ∷ []) n in
        let at = emit_if-Kept b (monitor_remove_recursively f ∷ []) n h in
        let gone = emit (file_deleted f b ∷ []) m in
        let inside = moved_inside env f g b n in
        Kept-if (not (env.file_is_indexable f info))
          (if env.file_is_indexable g info then moved_in env g b m else m)
          (if not (env.file_is_indexable g info) then check_remove_directory f gone else inside)
          (Kept-if (env.file_is_indexable g info) (moved_in env g b m) m
            (moved_in-Kept env g b m at) at)
          (Kept-if (not (env.file_is_indexable g info)) (check_remove_directory f gone) inside
            (kept.removed f gone (kept.emitted (file_deleted f b ∷ []) m at))
            (moved_inside-Kept env f g b n h))

    pub handle_signal-Kept :
        (env : Surroundings File Name) (s : MonitorSignal File) (n : FileNotifier File Name)
        → P n
        → P (handle_signal env s n)
    unfolding handle_signal
    handle_signal-Kept env (item_created f b) n h = created-Kept env f b n h
    handle_signal-Kept env (item_updated f b) n h =
        emit_if-Kept (env.file_is_indexable f none) (file_updated f ∷ []) n h
    handle_signal-Kept env (item_attribute_updated f b) n h =
        emit_if-Kept (env.file_is_indexable f none) (file_attributes_updated f ∷ []) n h
    handle_signal-Kept env (item_deleted f b) n h = deleted-Kept env f b n h
    handle_signal-Kept env (item_moved f g b) n h = moved-Kept env f g b n h
