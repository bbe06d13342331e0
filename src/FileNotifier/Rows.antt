-- ===== src/FileNotifier/Rows.antt =====
-- What is told of a file that the store has, at once or when its root ends.
use tracker_miners.Base.Options.{some_inj}
use tracker_miners.Base.{
  ◌≡◌, refl, sym, ap, ◌∙◌, inl, inr, Bool, true, false, not, ◌&&◌, ◌||◌, Option, none, some, List,
  [], ◌∷◌, ◌++◌, append-nil, arith, nat_eq, filter-append, if◌then◌else◌, Bool-cases, Eq, ==_refl,
  lookup, lookup-insert, remove_key, lookup-remove_key,
}
use tracker_miners.Base.Files.{FileOps, file_Eq}
use tracker_miners.FileNotifier.{
  FileInfo, Surroundings, FileData, IndexRoot, Output, file_updated, file_deleted, new_data,
  update_state, write_data, notify, same_name, same_state, create, update, delete, ensured,
  ensure_file_data, insert_disk_info, insert_store_info, free_data, check_directory_contents,
  check_contents_outputs,
}
use tracker_miners.FileNotifier.Cached.{IsCached}
use tracker_miners.FileNotifier.Crawl.{
  Row, is_deleted, is_pending, insert_info, handle_directory, is_followed, follow_directory,
  is_told, tell, handle_file_from_cursor,
}
use tracker_miners.FileNotifier.Compared.{
  is_about, told_of, waiting, told_of-notify, found, listed, notify-listed, cache_if, IsQuiet,
  IsQuiet-if,
}

module _ {File Name : Type 0} ⦃ops : FileOps File⦄ ⦃names : Eq Name⦄ where
  -- the comparison of a row of the store with the disk
  abbrev pub compared :
      Surroundings File Name → Row File Name → Option FileInfo → List (Output File)
  compared env row none = file_deleted row.file row.is_folder ∷ []
  compared env row (some info) =
      if nat_eq row.mtime info.mtime
        && elim row.mimetype [ none ↦ true | some m ↦ same_name row.hash (env.get_hash m) ]
      then []
      else file_updated row.file ∷ []

  stored : Row File Name → FileData File Name → FileData File Name
  stored row d = record d {
    in_store = true;
    is_dir_in_store = row.is_folder;
    extractor_hash = row.hash;
    mimetype = row.mimetype;
    store_mtime = row.mtime;
  }

  -- the data of the file are those of the row and of the disk, and are in the cache
  IsRead :
      Surroundings File Name → Row File Name → FileData File Name × IndexRoot File Name → Type 0
  IsRead env row x =
      (notify x.0 ≡ compared env row row.info)
      × (x.0.file ≡ row.file)
      × (lookup row.file x.1.cache ≡ some x.0)

  lookup-write_data :
      (f : File) (d : FileData File Name) (r : IndexRoot File Name)
      → lookup f (write_data f d r).cache ≡ some d
  lookup-write_data f d r = ground (arith, lookup-insert f f d r.cache, ==_refl f)

  ensured-new :
      (o : Option (FileData File Name)) (r : IndexRoot File Name) (f : File)
      → o ≡ none
      → (ensured o r f).0 ≡ new_data f
  ensured-new none r f e = refl
  ensured-new (some d) r f e = absurd (ground (arith, e))

  ensured-old :
      (o : Option (FileData File Name)) (r : IndexRoot File Name) (f : File)
      (d : FileData File Name)
      → o ≡ some d
      → (ensured o r f).0 ≡ d
  ensured-old none r f d e = absurd (ground (arith, e))
  ensured-old (some x) r f d e = some_inj x d e

  info-IsRead :
      (env : Surroundings File Name) (row : Row File Name) (d : FileData File Name)
      (r : IndexRoot File Name) (o : Option FileInfo)
      → d ≡ update_state env (stored row (new_data row.file))
      → lookup row.file r.cache ≡ some d
      → row.info ≡ o
      → IsRead env row (insert_info env o (d, r))
  unfolding IsRead stored listed notify insert_disk_info ensure_file_data
  info-IsRead env row d r none e l i =
      (ap notify e ∙ ap (compared env row) (sym i), ap (λ x. x.file) e, l)
  info-IsRead env row d r (some info) e l i =
      let file : d.file ≡ row.file = ap (λ x. x.file) e in
      let at : lookup d.file r.cache ≡ some d = ap (λ a. lookup a r.cache) file ∙ l in
      let known = ensured-old (lookup d.file r.cache) r d.file d at in
      let (x, s) = insert_disk_info env r d.file info in
      (
        ap (λ y. notify (update_state env (listed info y))) known
            ∙ notify-listed env info d
            ∙ ap (λ y. found env y.file info (some y)) e
            ∙ ap (compared env row) (sym i),
        ap (λ y. y.file) known ∙ file,
        ap (λ a. lookup a s.cache) (sym file)
            ∙ lookup-write_data d.file x (ensured (lookup d.file r.cache) r d.file).1,
      )

  directory-IsQuiet :
      (env : Surroundings File Name) (r : IndexRoot File Name) (info : Option FileInfo)
      (d : FileData File Name) (g : File)
      → IsQuiet g r.cache (handle_directory env r info d)
  unfolding IsQuiet
  directory-IsQuiet env r info d g =
      let removed = record r { deleted_dirs = d.file ∷ r.deleted_dirs } in
      let kept : IndexRoot File Name × List (Output File) =
        (r, check_contents_outputs env d.file) in
      let pushed = record r { pending_dirs = (d.file, false) ∷ r.pending_dirs } in
      let contents = check_directory_contents env d.file in
      let followed = is_followed r info d in
      IsQuiet-if (same_state d.state delete && (d.is_dir_in_store || d.is_dir_in_disk)) g r.cache
        (removed, [])
        (if followed then (if contents then follow_directory r d else kept) else (r, []))
        (refl, refl)
        (IsQuiet-if followed g r.cache (if contents then follow_directory r d else kept) (r, [])
          (IsQuiet-if contents g r.cache (follow_directory r d) kept
            (
              cache_if
                  ((same_state d.state create || same_state d.state update)
                    && not (is_pending r d.file))
                  pushed r r.cache refl refl,
              ground arith,
            )
            (refl, ground arith))
          (refl, refl))

  -- `x` tells of a change of the file, or keeps the data that are told of when the root ends
  Fate : File → List (Output File) → IndexRoot File Name × List (Output File) → Type 0
  Fate f change x = told_of f x.1 ++ waiting (lookup f x.0.cache) ≡ change

  Fate-if :
      (b : Bool) (f : File) (change : List (Output File))
      (x y : IndexRoot File Name × List (Output File))
      → Fate f change x
      → Fate f change y
      → Fate f change (if b then x else y)
  Fate-if true f change x y h k = h
  Fate-if false f change x y h k = k

  tell-Fate :
      (env : Surroundings File Name) (f : File) (d : FileData File Name)
      (x : IndexRoot File Name × List (Output File))
      → d.file ≡ f
      → lookup f x.0.cache ≡ some d
      → told_of f x.1 ≡ []
      → Fate f (notify d) (tell env d x)
  unfolding Fate free_data
  tell-Fate env f d (r, outputs) e l quiet =
      let gone : lookup f (remove_key d.file r.cache) ≡ none =
        ground (arith, lookup-remove_key d.file f r.cache, ops.eq.same_iff d.file f, e) in
      let said : told_of f (notify d) ≡ notify d =
        told_of-notify f d
        ∙ ap (λ b. if b then notify d else []) ((ops.eq.same_iff d.file f).1 e) in
      Fate-if (is_told env r d) f (notify d) (free_data d.file r, outputs ++ notify d) (r, outputs)
        (ap (λ y. y ++ waiting (lookup f (free_data d.file r).cache))
            (filter-append (is_about f) outputs (notify d)
              ∙ ap (λ y. y ++ told_of f (notify d)) quiet
              ∙ said)
          ∙ ap (λ o. notify d ++ waiting o) gone
          ∙ append-nil (notify d))
        (ap (λ y. y ++ waiting (lookup f r.cache)) quiet ∙ ap waiting l)

  -- A file that the store lists, and of which no data wait in the root, is told of as deleted if the disk
  -- does not have it, as updated if the disk has another time for it or the store another extractor, and
  -- else not, provided that it is not in a directory that was found deleted: either at once, or at the
  -- end of the root by the data that then wait.
  pub handle_file_from_cursor-compared :
      (env : Surroundings File Name) (r : IndexRoot File Name) (row : Row File Name)
      → IsCached r
      → lookup row.file r.cache ≡ none
      → is_deleted r row.file ≡ false
      → told_of row.file (handle_file_from_cursor env r row).1
          ++ waiting (lookup row.file (handle_file_from_cursor env r row).0.cache)
        ≡ compared env row row.info
  unfolding handle_file_from_cursor insert_store_info ensure_file_data Fate IsRead IsQuiet stored
  handle_file_from_cursor-compared env r row h absent kept =
      let f = row.file in
      let new = ensured (lookup f r.cache) r f in
      let d = update_state env (stored row new.0) in
      let r1 = write_data f d new.1 in
      let (e, s) = insert_info env row.info (d, r1) in
      let (signal, file, at) =
        info-IsRead env row d r1 row.info
          (ap (λ x. update_state env (stored row x)) (ensured-new (lookup f r.cache) r f absent))
          (lookup-write_data f d new.1) refl in
      let x = handle_directory env s row.info e in
      let (same, quiet) = directory-IsQuiet env s row.info e f in
      elim (Bool-cases (is_deleted r f)) [
        | inl y ↦ absurd (ground (arith, y, kept))
        | inr n ↦
            ap
              (λ b.
                told_of f (if b then (r, []) else tell env e x).1
                ++ waiting (lookup f (if b then (r, []) else tell env e x).0.cache))
              n
            ∙ tell-Fate env f e x file (ap (lookup f) same ∙ at) quiet
            ∙ signal
      ]
