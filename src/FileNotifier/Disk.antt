-- ===== src/FileNotifier/Disk.antt =====
-- What the signals of the monitor tell of files, against the files that are there.
use tracker_miners.Base.{
  ◌≡◌, refl, sym, ap, ◌∙◌, inl, inr, Bool, true, false, not, ◌&&◌, ◌||◌, Option, none, some, List,
  [], ◌∷◌, ◌++◌, append-nil, append_assoc, arith, Bool-cases, if◌then◌else◌, Eq, ◌==◌,
}
use tracker_miners.Base.Files.{FileOps, file_Eq}
use tracker_miners.FileNotifier.{
  Surroundings, FileInfo, Output, file_created, file_updated, file_attributes_updated, file_deleted,
  file_moved, monitor_remove_recursively,
}
use tracker_miners.FileNotifier.Roots.{FileNotifier, emit}
use tracker_miners.FileNotifier.Monitored.{
  MonitorSignal, item_created, item_updated, item_attribute_updated, item_deleted, item_moved,
  check_remove_directory, create_shallow_file_info, emit_if, created_file, extension_changed,
  item_created_cb, item_deleted_cb, item_moved_cb, handle_signal,
}
use tracker_miners.FileNotifier.Events.{Event, monitored, step, run}

module _ {File : Type 0} ⦃ops : FileOps File⦄ where
  -- the files that one knows of behind an output, and behind several, when no directory is told of
  abbrev pub learn : Output File → (File → Bool) → File → Bool
  learn (file_created f) known x = known x || x == f
  learn (file_deleted f b) known x = known x && not (x == f)
  learn (file_moved f g b) known x = known x && not (x == f) || known f && x == g
  learn _ known x = known x

  abbrev pub learn_all : List (Output File) → (File → Bool) → File → Bool
  learn_all [] known = known
  learn_all (o ∷ os) known = learn_all os (learn o known)

  -- the files that are there behind what a signal tells of
  abbrev pub on_disk : MonitorSignal File → (File → Bool) → File → Bool
  on_disk (item_created f b) disk x = disk x || x == f
  on_disk (item_updated f b) disk x = disk x
  on_disk (item_attribute_updated f b) disk x = disk x
  on_disk (item_deleted f b) disk x = disk x && not (x == f)
  on_disk (item_moved f g b) disk x = disk x && not (x == f) || x == g

  abbrev pub all_on_disk : List (MonitorSignal File) → (File → Bool) → File → Bool
  all_on_disk [] disk = disk
  all_on_disk (s ∷ ss) disk = all_on_disk ss (on_disk s disk)

  -- a signal is of a file that is not a directory, and what is moved is there
  abbrev pub IsOfFile : MonitorSignal File → (File → Bool) → Type 0
  IsOfFile (item_created f b) disk = b ≡ false
  IsOfFile (item_updated f b) disk = b ≡ false
  IsOfFile (item_attribute_updated f b) disk = b ≡ false
  IsOfFile (item_deleted f b) disk = b ≡ false
  IsOfFile (item_moved f g b) disk = (b ≡ false) × (disk f ≡ true)

  abbrev pub AllOfFiles : List (MonitorSignal File) → (File → Bool) → Type 0
  AllOfFiles [] disk = Unit {0}
  AllOfFiles (s ∷ ss) disk = IsOfFile s disk × AllOfFiles ss (on_disk s disk)

  learn_all-append :
      (os ps : List (Output File)) (known : File → Bool)
      → learn_all (os ++ ps) known ≡ learn_all ps (learn_all os known)
  learn_all-append [] ps known = refl
  learn_all-append (o ∷ os) ps known = learn_all-append os ps (learn o known)

  abbrev told_if : Bool → List (Output File) → List (Output File)
  told_if b outputs = if b then outputs else []

module _ {File Name : Type 0} ⦃ops : FileOps File⦄ ⦃names : Eq Name⦄ where
  -- whether a file is indexable does not depend on its information, and no directory is left out for a
  -- file in it
  pub record IsPlain (env : Surroundings File Name) : Type 0 where
    pub indexable :
        (f : File) (info : FileInfo)
        → env.file_is_indexable f (some info) ≡ env.file_is_indexable f none
    pub parents : (p : File) → env.parent_is_indexable p ≡ true

  -- the events of signals, all in the same surroundings
  abbrev pub signals :
      Surroundings File Name
      → List (MonitorSignal File)
      → List (Surroundings File Name × Event File Name)
  signals env [] = []
  signals env (s ∷ ss) = (env, monitored s) ∷ signals env ss

  told : Surroundings File Name → MonitorSignal File → List (Output File)
  told env (item_created f b) = told_if (env.file_is_indexable f none) (file_created f ∷ [])
  told env (item_updated f b) = told_if (env.file_is_indexable f none) (file_updated f ∷ [])
  told env (item_attribute_updated f b) =
      told_if (env.file_is_indexable f none) (file_attributes_updated f ∷ [])
  told env (item_deleted f b) =
      told_if (env.file_is_indexable f none) (file_deleted f (env.is_stored_directory f) ∷ [])
  told env (item_moved f g b) =
      if env.file_is_indexable f none
      then if env.file_is_indexable g none
        then file_moved f g false ∷ told_if (extension_changed env f g) (file_updated g ∷ [])
        else file_deleted f false ∷ []
      else told_if (env.file_is_indexable g none) (file_created g ∷ [])

  emit_if-outputs :
      (b : Bool) (os : List (Output File)) (n : FileNotifier File Name)
      → (emit_if b os n).outputs ≡ n.outputs ++ told_if b os
  emit_if-outputs true os n = refl
  emit_if-outputs false os n = sym (append-nil n.outputs)

  created_file-outputs :
      (env : Surroundings File Name) (f : File) (o : Option File) (n : FileNotifier File Name)
      → IsPlain env
      → (created_file env f o n).outputs
        ≡ n.outputs ++ told_if (env.file_is_indexable f none) (file_created f ∷ [])
  created_file-outputs env f none n plain =
      emit_if-outputs (env.file_is_indexable f none) (file_created f ∷ []) n
  created_file-outputs env f (some p) n plain =
      ap
        (λ b.
          (if b
            then emit_if (env.file_is_indexable f none) (file_created f ∷ []) n
            else emit (monitor_remove_recursively p ∷ [])
                (check_remove_directory p (emit (file_deleted p true ∷ []) n))).outputs)
        (plain.parents p)
      ∙ emit_if-outputs (env.file_is_indexable f none) (file_created f ∷ []) n

  signal-outputs :
      (env : Surroundings File Name) (s : MonitorSignal File) (disk : File → Bool)
      (n : FileNotifier File Name)
      → IsPlain env
      → IsOfFile s disk
      → (handle_signal env s n).outputs ≡ n.outputs ++ told env s
  unfolding handle_signal told item_created_cb item_deleted_cb item_moved_cb
  signal-outputs env (item_created f true) disk n plain h = cc
  signal-outputs env (item_created f false) disk n plain h =
      created_file-outputs env f (env.get_parent f) n plain
  signal-outputs env (item_updated f b) disk n plain h =
      emit_if-outputs (env.file_is_indexable f none) (file_updated f ∷ []) n
  signal-outputs env (item_attribute_updated f b) disk n plain h =
      emit_if-outputs (env.file_is_indexable f none) (file_attributes_updated f ∷ []) n
  signal-outputs env (item_deleted f true) disk n plain h = cc
  signal-outputs env (item_deleted f false) disk n plain h =
      elim (Bool-cases (env.file_is_indexable f none)) [
        | inl e ↦ ground (arith, e)
        | inr e ↦ ground (arith, e, append-nil n.outputs)
      ]
  signal-outputs env (item_moved f g true) disk n plain h = cc
  signal-outputs env (item_moved f g false) disk n plain h =
      let info = create_shallow_file_info false in
      elim (Bool-cases (env.file_is_indexable f none)) [
        | inl e ↦ elim (Bool-cases (env.file_is_indexable g none)) [
          | inl t ↦ elim (Bool-cases (extension_changed env f g)) [
            | inl c ↦ ground (
              arith,
              e,
              t,
              c,
              plain.indexable f info,
              plain.indexable g info,
              append_assoc n.outputs (file_moved f g false ∷ []) (file_updated g ∷ []),
            )
            | inr c ↦ ground (arith, e, t, c, plain.indexable f info, plain.indexable g info)
          ]
          | inr t ↦ ground (arith, e, t, plain.indexable f info, plain.indexable g info)
        ]
        | inr e ↦ elim (Bool-cases (env.file_is_indexable g none)) [
          | inl t ↦ ground (arith, e, t, plain.indexable f info, plain.indexable g info)
          | inr t ↦
              ground
                (arith, e, t, plain.indexable f info, plain.indexable g info, append-nil n.outputs)
        ]
      ]

  same-indexable :
      (env : Surroundings File Name) (x f : File)
      → (x == f) ≡ true
      → env.file_is_indexable x none ≡ env.file_is_indexable f none
  same-indexable env x f e = ap (λ y. env.file_is_indexable y none) ((ops.eq.same_iff x f).0 e)

  moved-learn :
      (env : Surroundings File Name) (f g x : File) (disk known : File → Bool)
      → disk f ≡ true
      → ((f : File) → known f ≡ (disk f && env.file_is_indexable f none))
      → learn_all (told env (item_moved f g false)) known x
        ≡ (on_disk (item_moved f g false) disk x && env.file_is_indexable x none)
  unfolding told
  moved-learn env f g x disk known h same =
      let to_f = same-indexable env x f in
      let to_g = same-indexable env x g in
      elim (Bool-cases (env.file_is_indexable f none)) [
        | inl e ↦ elim (Bool-cases (env.file_is_indexable g none)) [
          | inl t ↦ elim (Bool-cases (extension_changed env f g)) [
            | inl c ↦ ground (arith, e, t, c, h, same x, same f, to_g)
            | inr c ↦ ground (arith, e, t, c, h, same x, same f, to_g)
          ]
          | inr t ↦ ground (arith, e, t, h, same x, to_g)
        ]
        | inr e ↦ elim (Bool-cases (env.file_is_indexable g none)) [
          | inl t ↦ ground (arith, e, t, h, same x, to_f, to_g)
          | inr t ↦ ground (arith, e, t, h, same x, to_f, to_g)
        ]
      ]

  signal-learn :
      (env : Surroundings File Name) (s : MonitorSignal File) (disk known : File → Bool) (x : File)
      → IsOfFile s disk
      → ((f : File) → known f ≡ (disk f && env.file_is_indexable f none))
      → learn_all (told env s) known x ≡ (on_disk s disk x && env.file_is_indexable x none)
  unfolding told
  signal-learn env (item_created f b) disk known x h same =
      ground (arith, same x, same-indexable env x f)
  signal-learn env (item_updated f b) disk known x h same = ground (arith, same x)
  signal-learn env (item_attribute_updated f b) disk known x h same = ground (arith, same x)
  signal-learn env (item_deleted f b) disk known x h same =
      ground (arith, same x, same-indexable env x f)
  signal-learn env (item_moved f g true) disk known x h same = cc
  signal-learn env (item_moved f g false) disk known x h same =
      moved-learn env f g x disk known h.1 same

  -- From a state in which one knows of the files that are there and indexable, and of no others, any
  -- signals of the monitor about files that are not directories are handled, and what is told of them
  -- leads to the same state, when whether a file is indexable does not depend on its information and
  -- no directory is left out for a file in it.
  pub run-signals :
      (env : Surroundings File Name) (ss : List (MonitorSignal File)) (disk known : File → Bool)
      (n : FileNotifier File Name)
      → IsPlain env
      → AllOfFiles ss disk
      → ((f : File) → known f ≡ (disk f && env.file_is_indexable f none))
      → (m : FileNotifier File Name) × (told : List (Output File)) × (run (signals env ss) n
          ≡ some m)
        × (m.outputs ≡ n.outputs ++ told)
        × ((f : File)
            → learn_all told known f ≡ (all_on_disk ss disk f && env.file_is_indexable f none))
  unfolding run step
  run-signals env [] disk known n plain h same = (n, [], refl, sym (append-nil n.outputs), same)
  run-signals env (s ∷ ss) disk known n plain h same =
      let k = handle_signal env s n in
      let (m, later, at, outputs, learnt) =
        run-signals env ss (on_disk s disk) (learn_all (told env s) known) k plain h.1
          (λ f. signal-learn env s disk known f h.0 same) in
      (
        m,
        told env s ++ later,
        at,
        outputs
            ∙ ap (λ l. l ++ later) (signal-outputs env s disk n plain h.0)
            ∙ append_assoc n.outputs (told env s) later,
        λ f. ap (λ k. k f) (learn_all-append (told env s) later known) ∙ learnt f,
      )
