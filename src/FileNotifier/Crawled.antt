-- ===== src/FileNotifier/Crawled.antt =====
-- What the handling of rows and of children does to the cache of a root, and the end of its queue.
use tracker_miners.Base.{
  suc, ◌≤◌, ◌≡◌, refl, ap, ◌∙◌, Bool, true, false, not, ◌&&◌, ◌||◌, Option, none, some, List, [],
  ◌∷◌, ◌++◌, inl, inr, arith, is_some, count, if◌then◌else◌, Bool-cases, Option-cases, Eq, ◌==◌,
  ==_refl, Table, lookup, remove_key, lookup-remove_key, nat_eq,
}
use tracker_miners.Base.Files.{FileOps, file_Eq}
use tracker_miners.FileNotifier.{
  FileInfo, Surroundings, FileData, IndexRoot, Output, notify, free_data, notify_loop, emptied,
  notify_changes, insert_disk_info, insert_store_info, same_state, create, update, delete,
  check_directory_contents, check_contents_outputs,
}
use tracker_miners.FileNotifier.Cached.{
  bit, IsOwn, IsCached, IsNext, IsNext-refl, IsNext-trans, IsNext-same, IsNext-if, IsNext-if_fst,
  disk_info-IsNext, store_info-IsNext, free_data-IsNext,
}
use tracker_miners.FileNotifier.Crawl.{
  Row, is_deleted, is_pending, may_be_queued, queue_child, handle_file_from_filesystem, insert_info,
  handle_directory, is_followed, follow_directory, is_told, tell, handle_file_from_cursor,
  handle_rows, check_child, count_found, count_ignored, handle_child, handle_children,
}

module _ {File Name : Type 0} ⦃ops : FileOps File⦄ ⦃names : Eq Name⦄ where
  queue_child-IsNext :
      (env : Surroundings File Name) (r : IndexRoot File Name) (info : FileInfo)
      (d : FileData File Name)
      → IsCached r
      → IsNext r (queue_child env r info d).0
  queue_child-IsNext env r info d h =
      let pushed = record r { pending_dirs = r.pending_dirs ++ (d.file, false) ∷ [] } in
      IsNext-if_fst (may_be_queued r info d) r
        (
          if check_directory_contents env d.file && not info.is_mountpoint then pushed else r,
          check_contents_outputs env d.file,
        )
        (r, [])
        (IsNext-if (check_directory_contents env d.file && not info.is_mountpoint) r pushed r
          (IsNext-same r pushed refl refl refl refl refl refl h) (IsNext-refl r h))
        (IsNext-refl r h)

  pub filesystem-IsNext :
      (env : Surroundings File Name) (r : IndexRoot File Name) (f : File) (info : FileInfo)
      → IsCached r
      → IsNext r (handle_file_from_filesystem env r f info).0
  unfolding handle_file_from_filesystem
  filesystem-IsNext env r f info h =
      let (d, r1) = insert_disk_info env r f info in
      let first = (disk_info-IsNext env r f info h).0 in
      let second = queue_child-IsNext env r1 info d first.cached in
      let r2 = (queue_child env r1 info d).0 in
      IsNext-trans r r1 (free_data f r2) first
        (IsNext-trans r1 r2 (free_data f r2) second (free_data-IsNext f r2 second.cached))

  insert_info-IsNext :
      (env : Surroundings File Name) (info : Option FileInfo) (d : FileData File Name)
      (r : IndexRoot File Name)
      → IsCached r
      → IsNext r (insert_info env info (d, r)).1
  insert_info-IsNext env none d r h = IsNext-refl r h
  insert_info-IsNext env (some info) d r h = (disk_info-IsNext env r d.file info h).0

  follow-IsNext :
      (r : IndexRoot File Name) (d : FileData File Name)
      → IsCached r
      → IsNext r (follow_directory r d).0
  follow-IsNext r d h =
      let pushed = record r { pending_dirs = (d.file, false) ∷ r.pending_dirs } in
      IsNext-if
        ((same_state d.state create || same_state d.state update) && not (is_pending r d.file)) r
        pushed r (IsNext-same r pushed refl refl refl refl refl refl h) (IsNext-refl r h)

  handle_directory-IsNext :
      (env : Surroundings File Name) (r : IndexRoot File Name) (info : Option FileInfo)
      (d : FileData File Name)
      → IsCached r
      → IsNext r (handle_directory env r info d).0
  handle_directory-IsNext env r info d h =
      let deleted = record r { deleted_dirs = d.file ∷ r.deleted_dirs } in
      let kept : IndexRoot File Name × List (Output File) =
        (r, check_contents_outputs env d.file) in
      let contents = check_directory_contents env d.file in
      let followed = is_followed r info d in
      IsNext-if_fst (same_state d.state delete && (d.is_dir_in_store || d.is_dir_in_disk)) r
        (deleted, [])
        (if followed then (if contents then follow_directory r d else kept) else (r, []))
        (IsNext-same r deleted refl refl refl refl refl refl h)
        (IsNext-if_fst followed r (if contents then follow_directory r d else kept) (r, [])
          (IsNext-if_fst contents r (follow_directory r d) kept (follow-IsNext r d h)
            (IsNext-refl r h))
          (IsNext-refl r h))

  tell-IsNext :
      (env : Surroundings File Name) (d : FileData File Name) (r : IndexRoot File Name)
      (outputs : List (Output File))
      → IsCached r
      → IsNext r (tell env d (r, outputs)).0
  tell-IsNext env d r outputs h = elim (Bool-cases (is_told env r d)) [
    | inl y ↦ rw y (free_data-IsNext d.file r h)
    | inr n ↦ rw n (IsNext-refl r h)
  ]

  cursor-IsNext :
      (env : Surroundings File Name) (r : IndexRoot File Name) (row : Row File Name)
      → IsCached r
      → IsNext r (handle_file_from_cursor env r row).0
  unfolding handle_file_from_cursor
  cursor-IsNext env r row h =
      let stored = insert_store_info env r row.file row.is_folder row.hash row.mimetype row.mtime in
      let first =
        (store_info-IsNext env r row.file row.is_folder row.hash row.mimetype row.mtime h).0 in
      let (d, s) = insert_info env row.info stored in
      let second = insert_info-IsNext env row.info stored.0 stored.1 first.cached in
      let (t, outputs) = handle_directory env s row.info d in
      let third = handle_directory-IsNext env s row.info d second.cached in
      let fourth = tell-IsNext env d t outputs third.cached in
      let last = tell env d (t, outputs) in
      IsNext-if_fst (is_deleted r row.file) r (r, []) last (IsNext-refl r h)
        (IsNext-trans r stored.1 last.0 first
          (IsNext-trans stored.1 s last.0 second (IsNext-trans s t last.0 third fourth)))

  pub rows-IsNext :
      (env : Surroundings File Name) (rows : List (Row File Name)) (r : IndexRoot File Name)
      → IsCached r
      → IsNext r (handle_rows env rows r).0
  unfolding handle_rows
  rows-IsNext env [] r h = IsNext-refl r h
  rows-IsNext env (row ∷ rows) r h =
      let s = (handle_file_from_cursor env r row).0 in
      let first = cursor-IsNext env r row h in
      let t = record s { cursor_has_content = true } in
      let u = (handle_rows env rows t).0 in
      let later =
        rows-IsNext env rows t (record { queued = first.cached.queued; own = first.cached.own }) in
      IsNext-trans r s u first (record {
        cached = later.cached;
        id = later.id;
        idle = later.idle;
        has_cursor = later.has_cursor;
        cancelled = later.cancelled;
      })

  pub count_found-IsNext :
      (b : Bool) (r : IndexRoot File Name) → IsCached r → IsNext r (count_found b r)
  count_found-IsNext true r h =
      IsNext-same r (record r { directories_found = suc r.directories_found }) refl refl refl refl
        refl refl h
  count_found-IsNext false r h =
      IsNext-same r (record r { files_found = suc r.files_found }) refl refl refl refl refl refl h

  count_ignored-IsNext :
      (b : Bool) (r : IndexRoot File Name) → IsCached r → IsNext r (count_ignored b r)
  count_ignored-IsNext true r h =
      IsNext-same r (record r { directories_ignored = suc r.directories_ignored }) refl refl refl
        refl refl refl h
  count_ignored-IsNext false r h =
      IsNext-same r (record r { files_ignored = suc r.files_ignored }) refl refl refl refl refl refl
        h

  pub child-IsNext :
      (env : Surroundings File Name) (r : IndexRoot File Name) (f : File) (info : FileInfo)
      → IsCached r
      → IsNext r (handle_child env r f info).0
  unfolding handle_child
  child-IsNext env r f info h =
      let found = count_found info.is_directory r in
      let first = count_found-IsNext info.is_directory r h in
      let ignored = count_ignored info.is_directory found in
      IsNext-if_fst (check_child env r f info) r (handle_file_from_filesystem env found f info)
        (ignored, [])
        (IsNext-trans r found (handle_file_from_filesystem env found f info).0 first
          (filesystem-IsNext env found f info first.cached))
        (IsNext-trans r found ignored first
          (count_ignored-IsNext info.is_directory found first.cached))

  pub children-IsNext :
      (env : Surroundings File Name) (infos : List (File × FileInfo)) (r : IndexRoot File Name)
      → IsCached r
      → IsNext r (handle_children env infos r).0
  unfolding handle_children
  children-IsNext env [] r h = IsNext-refl r h
  children-IsNext env ((f, info) ∷ infos) r h =
      let s = (handle_child env r f info).0 in
      let first = child-IsNext env r f info h in
      IsNext-trans r s (handle_children env infos s).0 first
        (children-IsNext env infos s first.cached)

  -- what is told of files, the last of the list first
  abbrev pub told : List File → Table File (FileData File Name) → List (Output File)
  told [] cache = []
  told (f ∷ fs) cache = told fs cache ++ elim (lookup f cache) [ none ↦ [] | some d ↦ notify d ]

  notify_loop-told :
      (fs : List File) (cache : Table File (FileData File Name))
      → ((f : File) → count (λ g. g == f) fs ≤ bit (is_some (lookup f cache)))
      → IsOwn cache
      → (left : Table File (FileData File Name)) × (notify_loop fs cache
          ≡ some (told fs cache, left))
        × ((f : File)
            → lookup f left ≡ (if nat_eq (count (λ g. g == f) fs) 0 then lookup f cache else none))
  unfolding notify_loop
  notify_loop-told [] cache h own = (cache, refl, λ f. refl)
  notify_loop-told (f ∷ fs) cache h own =
      let (left, e, k) = notify_loop-told fs cache (λ g. ground (arith, h g)) own in
      let here : lookup f left ≡ lookup f cache = ground (arith, k f, h f, ==_refl f) in
      elim (Option-cases (lookup f cache)) [
        | inl missing ↦ absurd (ground (arith, h f, ==_refl f, missing))
        | inr (d, found) ↦ (
          remove_key d.file left,
          rw e (rw (here ∙ found, found)),
          λ g. ground (
            arith,
            k g,
            lookup-remove_key d.file g left,
            own f d found,
            ops.eq.same_iff f g,
            ops.eq.same_iff d.file g,
            h g,
          ),
        )
      ]

  -- Behind rows and children, notify_changes finds the data of every file in the queue, tells their
  -- changes in the order in which the files came, and leaves nothing in the queue and the cache.
  pub notify_changes-told :
      (r : IndexRoot File Name)
      → IsCached r
      → (s : IndexRoot File Name) × (notify_changes r ≡ some (told r.queue r.cache, s))
        × IsNext r s
        × (s.queue ≡ [])
  unfolding notify_changes
  notify_changes-told r h =
      let (left, e, k) = notify_loop-told r.queue r.cache (λ f. ground (arith, h.queued f)) h.own in
      let none_left : (f : File) → lookup f left ≡ none =
        λ f. ground (arith, k f, h.queued f, Option-cases (lookup f r.cache)) in
      (
        record r { queue = []; cache = left },
        ap (emptied r) e,
        record {
          cached = record {
            queued = λ f. ground (arith, none_left f);
            own = λ f d l. absurd (ground (arith, none_left f, l));
          };
          id = refl;
          idle = refl;
          has_cursor = refl;
          cancelled = refl;
        },
        refl,
      )
