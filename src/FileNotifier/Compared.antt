-- ===== src/FileNotifier/Compared.antt =====
-- What is told of a file when the directory that holds it is listed and its root ends.

use tracker_miners.Base.UniqueKeys.{IsTable}
use tracker_miners.Base.{
  ◌≤◌, ◌≡◌, refl, sym, ap, ◌∙◌, inl, inr, Bool, true, false, not, ◌&&◌, Option, none, some, List,
  [], ◌∷◌, ◌++◌, append-nil, arith, nat_eq, is_some, count, filter, filter-append, if◌then◌else◌,
  Bool-cases, Option-cases, Eq, ◌==◌, Table, lookup, insert, lookup-insert, lookup-remove_key,
}
use tracker_miners.Base.Files.{FileOps, file_Eq}
use tracker_miners.FileNotifier.{
  FileInfo, Surroundings, FileData, IndexRoot, Output, file_created, file_updated, file_deleted,
  new_data, write_data, notify, same_name, update_state, ensured, ensure_file_data,
  insert_disk_info, free_data, notify_changes, check_directory_contents, check_contents_outputs,
}
use tracker_miners.FileNotifier.Cached.{IsOwn, IsCached}
use tracker_miners.FileNotifier.Crawl.{
  may_be_queued, queue_child, handle_file_from_filesystem, check_child, count_found, count_ignored,
  handle_child, handle_children,
}
use tracker_miners.FileNotifier.Crawled.{
  told, notify_changes-told, count_found-IsNext, child-IsNext, children-IsNext,
}

module _ {File : Type 0} ⦃ops : FileOps File⦄ where
  -- a signal about a change of a file
  abbrev pub is_about : File → Output File → Bool
  is_about f (file_created g) = g == f
  is_about f (file_updated g) = g == f
  is_about f (file_deleted g b) = g == f
  is_about f _ = false

  abbrev pub told_of : File → List (Output File) → List (Output File)
  told_of f outputs = filter (is_about f) outputs

module _ {File Name : Type 0} ⦃ops : FileOps File⦄ ⦃names : Eq Name⦄ where
  abbrev pub hash_is_current : Surroundings File Name → FileData File Name → Bool
  hash_is_current env d = elim d.mimetype [
    | none ↦ true
    | some m ↦ same_name d.extractor_hash (env.get_hash m)
  ]

  -- what is to be told of a file that the directory lists, with the data of the store if these are
  -- waiting for the listing
  abbrev pub found :
      Surroundings File Name → File → FileInfo → Option (FileData File Name) → List (Output File)
  found env f info none = file_created f ∷ []
  found env f info (some d) =
      if d.in_store
      then if nat_eq d.store_mtime info.mtime && hash_is_current env d
        then []
        else file_updated f ∷ []
      else file_created f ∷ []

  unfoldable pub listed : FileInfo → FileData File Name → FileData File Name
  listed info d = record d {
    in_disk = true;
    is_dir_in_disk = info.is_directory;
    disk_mtime = info.mtime;
  }

  pub notify-listed :
      (env : Surroundings File Name) (info : FileInfo) (d : FileData File Name)
      → notify (update_state env (listed info d)) ≡ found env d.file info (some d)
  unfolding notify listed
  notify-listed env info d = elim (Option-cases d.mimetype) [
    | inl e ↦ ground (arith, e)
    | inr (m, e) ↦ ground (arith, e)
  ]

  ensured-found :
      (env : Surroundings File Name) (f : File) (info : FileInfo) (o : Option (FileData File Name))
      (r : IndexRoot File Name)
      → lookup f r.cache ≡ o
      → IsCached r
      → notify (update_state env (listed info (ensured o r f).0)) ≡ found env f info o
  ensured-found env f info none r e h = notify-listed env info (new_data f)
  ensured-found env f info (some d) r e h =
      notify-listed env info d ∙ ap (λ g. found env g info (some d)) (h.own f d e)

  ensured-cache :
      (f g : File) (d : FileData File Name) (o : Option (FileData File Name))
      (r : IndexRoot File Name)
      → (f == g) ≡ false
      → lookup g (insert f d (ensured o r f).1.cache) ≡ lookup g r.cache
  ensured-cache f g d none r e = ground (
    arith,
    e,
    lookup-insert f g d (insert f (new_data f) r.cache),
    lookup-insert f g (new_data f) r.cache,
  )
  ensured-cache f g d (some x) r e = ground (arith, e, lookup-insert f g d r.cache)

  pub cache_if :
      (b : Bool) (s t : IndexRoot File Name) (c : Table File (FileData File Name))
      → s.cache ≡ c
      → t.cache ≡ c
      → (if b then s else t).cache ≡ c
  cache_if true s t c h k = h
  cache_if false s t c h k = k

  -- work on a root that leaves its cache and says nothing about a file
  unfoldable pub IsQuiet :
      File → Table File (FileData File Name) → IndexRoot File Name × List (Output File) → Type 0
  IsQuiet g c x = (x.0.cache ≡ c) × (told_of g x.1 ≡ [])

  pub IsQuiet-if :
      (b : Bool) (g : File) (c : Table File (FileData File Name))
      (x y : IndexRoot File Name × List (Output File))
      → IsQuiet g c x
      → IsQuiet g c y
      → IsQuiet g c (if b then x else y)
  IsQuiet-if true g c x y h k = h
  IsQuiet-if false g c x y h k = k

  queue_child-IsQuiet :
      (env : Surroundings File Name) (r : IndexRoot File Name) (info : FileInfo)
      (d : FileData File Name) (g : File)
      → IsQuiet g r.cache (queue_child env r info d)
  unfolding IsQuiet
  queue_child-IsQuiet env r info d g =
      let pushed = record r { pending_dirs = r.pending_dirs ++ (d.file, false) ∷ [] } in
      let contents = check_directory_contents env d.file in
      IsQuiet-if (may_be_queued r info d) g r.cache
        (
          if contents && not info.is_mountpoint then pushed else r,
          check_contents_outputs env d.file,
        )
        (r, [])
        (cache_if (contents && not info.is_mountpoint) pushed r r.cache refl refl, ground arith)
        (refl, refl)

  told_of-found :
      (env : Surroundings File Name) (f g : File) (info : FileInfo)
      (o : Option (FileData File Name))
      → told_of g (found env f info o) ≡ (if f == g then found env f info o else [])
  told_of-found env f g info none = ground arith
  told_of-found env f g info (some d) =
      elim (Bool-cases (nat_eq d.store_mtime info.mtime && hash_is_current env d)) [
        | inl e ↦ ground (arith, e)
        | inr e ↦ ground (arith, e)
      ]

  filesystem-told :
      (env : Surroundings File Name) (r : IndexRoot File Name) (f g : File) (info : FileInfo)
      → IsCached r
      → (told_of g (handle_file_from_filesystem env r f info).1
          ≡ (if f == g then found env f info (lookup f r.cache) else []))
        × (lookup g (handle_file_from_filesystem env r f info).0.cache
            ≡ (if f == g then none else lookup g r.cache))
  unfolding handle_file_from_filesystem insert_disk_info ensure_file_data free_data IsQuiet listed
  filesystem-told env r f g info h =
      let o = lookup f r.cache in
      let d = update_state env (listed info (ensured o r f).0) in
      let r1 = write_data f d (ensured o r f).1 in
      let (same, quiet) = queue_child-IsQuiet env r1 info d g in
      let signal = ensured-found env f info o r refl h in
      (
        filter-append (is_about g) (queue_child env r1 info d).1 (notify d)
            ∙ ap (λ l. l ++ told_of g (notify d)) quiet
            ∙ ap (told_of g) signal
            ∙ told_of-found env f g info o,
        lookup-remove_key f g (queue_child env r1 info d).0.cache
            ∙ ap (λ c. if f == g then none else lookup g c) same
            ∙ elim (Bool-cases (f == g)) [
              | inl e ↦ ground (arith, e)
              | inr e ↦ ground (arith, e, ensured-cache f g d o r e)
            ],
      )

  -- the notifier takes an entry of a directory, whatever the current root is
  abbrev pub IsTaken : Surroundings File Name → File → FileInfo → Type 0
  IsTaken env f info = (env.file_is_root f ≡ false) × (env.file_is_indexable f (some info) ≡ true)

  abbrev pub AllTaken : Surroundings File Name → Table File FileInfo → Type 0
  AllTaken env [] = Unit {0}
  AllTaken env ((f, info) ∷ infos) = IsTaken env f info × AllTaken env infos

  -- `x` is `r` after the entry `f` of a directory, and what is told of `g` by then
  Tells :
      Surroundings File Name
      → Table File (FileData File Name)
      → File
      → FileInfo
      → File
      → IndexRoot File Name × List (Output File)
      → Type 0
  Tells env c f info g x =
      (told_of g x.1 ≡ (if f == g then found env f info (lookup f c) else []))
      × (lookup g x.0.cache ≡ (if f == g then none else lookup g c))

  Tells-if :
      (b : Bool) (env : Surroundings File Name) (c : Table File (FileData File Name)) (f : File)
      (info : FileInfo) (g : File) (x y : IndexRoot File Name × List (Output File))
      → b ≡ true
      → Tells env c f info g x
      → Tells env c f info g (if b then x else y)
  Tells-if true env c f info g x y e h = h
  Tells-if false env c f info g x y e h = absurd (ground (arith, e))

  count_found-cache : (b : Bool) (r : IndexRoot File Name) → (count_found b r).cache ≡ r.cache
  count_found-cache true r = refl
  count_found-cache false r = refl

  child-told :
      (env : Surroundings File Name) (r : IndexRoot File Name) (f g : File) (info : FileInfo)
      → IsTaken env f info
      → IsCached r
      → Tells env r.cache f info g (handle_child env r f info)
  unfolding handle_child Tells
  child-told env r f g info t h =
      let r1 = count_found info.is_directory r in
      let same = count_found-cache info.is_directory r in
      let (signals, left) =
        filesystem-told env r1 f g info (count_found-IsNext info.is_directory r h).cached in
      Tells-if (check_child env r f info) env r.cache f info g
        (handle_file_from_filesystem env r1 f info) (count_ignored info.is_directory r1, [])
        (ground (arith, t.0, t.1))
        (
          signals ∙ ap (λ c. if f == g then found env f info (lookup f c) else []) same,
          left ∙ ap (λ c. if f == g then none else lookup g c) same,
        )

  -- of an entry of a listed directory, or of no entry
  abbrev pub listing :
      Surroundings File Name
      → File
      → Option FileInfo
      → Option (FileData File Name)
      → List (Output File)
  listing env g none o = []
  listing env g (some info) o = found env g info o

  entry-listing :
      (b : Bool) (env : Surroundings File Name) (f g : File) (info : FileInfo)
      (later : Option FileInfo) (x y : Option (FileData File Name))
      → (b ≡ true → (later ≡ none) × (f ≡ g) × (x ≡ y))
      → (if b then found env f info x else []) ++ listing env g later (if b then none else y)
        ≡ listing env g (if b then some info else later) y
  entry-listing true env f g info later x y h =
      let (absent, file, same) = h refl in
      ap (λ o. found env f info x ++ listing env g o none) absent
      ∙ append-nil (found env f info x)
      ∙ ap (λ a. found env a info x) file
      ∙ ap (found env g info) same
  entry-listing false env f g info later x y h = refl

  children-told :
      (env : Surroundings File Name) (infos : Table File FileInfo) (r : IndexRoot File Name)
      (g : File)
      → IsTable infos
      → AllTaken env infos
      → IsCached r
      → (told_of g (handle_children env infos r).1
          ≡ listing env g (lookup g infos) (lookup g r.cache))
        × (lookup g (handle_children env infos r).0.cache
            ≡ (if is_some (lookup g infos) then none else lookup g r.cache))
  unfolding handle_children lookup Tells
  children-told env [] r g unique t h = (refl, refl)
  children-told env ((f, info) ∷ infos) r g unique t h =
      let r1 = (handle_child env r f info).0 in
      let (signals, left) = child-told env r f g info t.0 h in
      let (later, last) =
        children-told env infos r1 g unique.1 t.1 (child-IsNext env r f info h).cached in
      (
        filter-append (is_about g) (handle_child env r f info).1 (handle_children env infos r1).1
            ∙ ap (λ l. l ++ told_of g (handle_children env infos r1).1) signals
            ∙ ap (λ l. (if f == g then found env f info (lookup f r.cache) else []) ++ l)
                (later ∙ ap (listing env g (lookup g infos)) left)
            ∙ entry-listing (f == g) env f g info (lookup g infos) (lookup f r.cache)
                (lookup g r.cache)
                (λ e.
                  let file = (ops.eq.same_iff f g).0 e in
                  (
                    ap (λ a. lookup a infos) (sym file) ∙ unique.0,
                    file,
                    ap (λ a. lookup a r.cache) file,
                  )),
        last ∙ ap (λ o. if is_some (lookup g infos) then none else o) left ∙ ground arith,
      )

  -- the end of the root tells of a file whose data wait
  abbrev pub waiting : Option (FileData File Name) → List (Output File)
  waiting none = []
  waiting (some d) = notify d

  pub told_of-notify :
      (g : File) (d : FileData File Name)
      → told_of g (notify d) ≡ (if d.file == g then notify d else [])
  unfolding notify
  told_of-notify g d = ground arith

  told_of-waiting :
      (f g : File) (o : Option (FileData File Name)) (c : Table File (FileData File Name))
      → IsOwn c
      → lookup f c ≡ o
      → told_of g (waiting o) ≡ (if f == g then waiting o else [])
  told_of-waiting f g none c own e = ground arith
  told_of-waiting f g (some d) c own e =
      told_of-notify g d ∙ ap (λ a. if a == g then notify d else []) (own f d e)

  told_of-told :
      (l : List File) (c : Table File (FileData File Name)) (g : File)
      → IsOwn c
      → count (λ x. x == g) l ≤ 1
      → told_of g (told l c)
        ≡ (if nat_eq (count (λ x. x == g) l) 0 then [] else waiting (lookup g c))
  told_of-told [] c g own h = refl
  told_of-told (f ∷ l) c g own h =
      filter-append (is_about g) (told l c) (waiting (lookup f c))
      ∙ ap (λ x. x ++ told_of g (waiting (lookup f c))) (told_of-told l c g own (ground (arith, h)))
      ∙ ap (λ x. (if nat_eq (count (λ a. a == g) l) 0 then [] else waiting (lookup g c)) ++ x)
          (told_of-waiting f g (lookup f c) c own refl)
      ∙ elim (Bool-cases (f == g)) [
        | inl e ↦ ground (arith, e, h, ap (λ a. waiting (lookup a c)) ((ops.eq.same_iff f g).0 e))
        | inr e ↦ ground (arith, e, append-nil (waiting (lookup g c)))
      ]

  queued-waiting :
      (r : IndexRoot File Name) (g : File)
      → IsCached r
      → told_of g (told r.queue r.cache) ≡ waiting (lookup g r.cache)
  queued-waiting r g h =
      told_of-told r.queue r.cache g h.own (ground (arith, h.queued g))
      ∙ elim (Option-cases (lookup g r.cache)) [
        | inl e ↦ ground (arith, e, h.queued g)
        | inr (d, e) ↦ ground (arith, e, h.queued g)
      ]

  listing-waiting :
      (env : Surroundings File Name) (g : File) (o : Option FileInfo)
      (x : Option (FileData File Name))
      → listing env g o x ++ waiting (if is_some o then none else x)
        ≡ elim o [ some info ↦ found env g info x | none ↦ waiting x ]
  listing-waiting env g none x = refl
  listing-waiting env g (some info) x = append-nil (found env g info x)

  -- Behind data that wait in a root, when a directory is listed whose entries are distinct and are all
  -- taken, and the root then ends: a file in the directory is told of as created if the store does
  -- not have it, as updated if the store has another time or another extractor for it, and else not;
  -- a file that is not in the directory is told of if its data were waiting, as their state says; and
  -- nothing is told of any other file.
  pub listed-told :
      (env : Surroundings File Name) (infos : Table File FileInfo) (r : IndexRoot File Name)
      (g : File)
      → IsTable infos
      → AllTaken env infos
      → IsCached r
      → (s : IndexRoot File Name) × (outputs : List (Output File)) × (notify_changes
            (handle_children env infos r).0
          ≡ some (outputs, s))
        × (told_of g ((handle_children env infos r).1 ++ outputs) ≡ elim (lookup g infos) [
          | some info ↦ found env g info (lookup g r.cache)
          | none ↦ waiting (lookup g r.cache)
        ])
  listed-told env infos r g unique t h =
      let r1 = (handle_children env infos r).0 in
      let cached = (children-IsNext env infos r h).cached in
      let (s, e, next, empty) = notify_changes-told r1 cached in
      let (signals, left) = children-told env infos r g unique t h in
      (
        s,
        told r1.queue r1.cache,
        e,
        filter-append (is_about g) (handle_children env infos r).1 (told r1.queue r1.cache)
            ∙ ap (λ l. l ++ told_of g (told r1.queue r1.cache)) signals
            ∙ ap (λ l. listing env g (lookup g infos) (lookup g r.cache) ++ l)
                (queued-waiting r1 g cached ∙ ap waiting left)
            ∙ listing-waiting env g (lookup g infos) (lookup g r.cache),
      )
