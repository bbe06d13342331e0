-- ===== src/MinerFs/Queue/Runs.antt =====
-- Any calls on the queue of a new file-system miner.
use tracker_miners.Base.Options.{bind_some, some_inj, ◌>>=◌}
use tracker_miners.Base.{
  ℕ, zero, suc, length, count, nil_of_length, ◌≤◌, ◌≡◌, refl, sym, ap, subst, ◌∙◌, Bool, true, not,
  if◌then◌else◌, ◌+◌, ◌&&◌, Option, some, is_some, List, [], ◌∷◌, arith, nat_eq, lookup,
}
use tracker_miners.Base.Int.{ℤ}
use tracker_miners.Base.Files.{FileOps, file_Eq}
use tracker_miners.PriorityQueue.Groups.{nodes}
use tracker_miners.MinerFs.Queue.Frees.{is_root}
use tracker_miners.MinerFs.{QueueEvent}
use tracker_miners.MinerFs.Queue.{
  MinerFs, tracker_miner_fs_init, miner_fs_queue_event, indexing_tree_directory_removed,
}
use tracker_miners.MinerFs.Queue.Taking.{item_queue_get_next_file, notify_roots_finished}
use tracker_miners.MinerFs.Queue.Linked.{IsLinked, Keeps, remove_below-Keeps}
use tracker_miners.MinerFs.Queue.Calls.{queue_event-Keeps, Keeps-bind}
use tracker_miners.MinerFs.Queue.Notified.{
  is_listed, times_listed, times_listed-notify, notify_roots_finished-waiting, pending,
  notify_roots_finished-IsLinked, notify_roots_finished-pending,
}
use tracker_miners.MinerFs.Queue.Takes.{item_queue_get_next_file-Takes}

-- The arguments of `queues` are those of miner_fs_queue_event: the answers of the indexing tree and of
-- the SPARQL buffer, whether two files are one object, the priority and the event.
pub data Call (File : Type 0) : Type 0 where
  queues : (File → Option File) → Bool → Bool → ℤ → QueueEvent File → Call File
  takes_next : Call File
  removes_directory : File → Call File
  notifies : Call File

module _ {File : Type 0} ⦃ops : FileOps File⦄ where
  unfoldable pub step : Call File → MinerFs File → Option (MinerFs File)
  step (queues get_root limit_reached one_object priority e) fs =
      miner_fs_queue_event get_root limit_reached one_object priority e fs
  step takes_next fs = item_queue_get_next_file fs >>= λ (e, gs). some gs
  step (removes_directory directory) fs = indexing_tree_directory_removed directory fs
  step notifies fs = some (notify_roots_finished fs)

  unfoldable pub run : List (Call File) → MinerFs File → Option (MinerFs File)
  run [] fs = some fs
  run (c ∷ cs) fs = step c fs >>= run cs

  step-Keeps : (c : Call File) (fs : MinerFs File) → IsLinked fs → Keeps (step c fs)
  unfolding step
  step-Keeps (queues get_root limit_reached one_object priority e) fs s =
      queue_event-Keeps get_root limit_reached one_object priority e fs s
  step-Keeps takes_next fs s =
      let (e, gs, out, t, shorter, waits) = item_queue_get_next_file-Takes fs s in
      (gs, bind_some (item_queue_get_next_file fs) (λ r. some r.1) (e, gs) _ out refl, t)
  step-Keeps (removes_directory directory) fs s = remove_below-Keeps directory fs s
  step-Keeps notifies fs s = (notify_roots_finished fs, refl, notify_roots_finished-IsLinked fs s)

  run-Keeps : (cs : List (Call File)) (fs : MinerFs File) → IsLinked fs → Keeps (run cs fs)
  unfolding run
  run-Keeps [] fs s = (fs, refl, s)
  run-Keeps (c ∷ cs) fs s =
      Keeps-bind (step c fs) (run cs) (step-Keeps c fs s) (λ gs t. run-Keeps cs gs t)

  init-IsLinked : IsLinked (tracker_miner_fs_init {File = File})
  unfolding lookup
  init-IsLinked = record {
    links = record { fresh = λ l h. refl; distinct = λ l. omega arith };
    rooted = λ r l. refl;
    indexed = λ f l e. absurd (ground (arith, e));
    unique = tt;
  }

  -- Any calls on a new file-system miner run without following a pointer to a freed event or to a freed
  -- queue of a root. Behind them the table of files leads only to queued events of these files, each
  -- root's queue has the root_nodes of the queued events of that root and no others, and no two
  -- events have one link.
  pub run-init-IsLinked :
      (cs : List (Call File))
      → (fs : MinerFs File) × (run cs tracker_miner_fs_init ≡ some fs) × IsLinked fs
  run-init-IsLinked cs = run-Keeps cs tracker_miner_fs_init init-IsLinked

  reached-IsLinked :
      (cs : List (Call File)) (fs : MinerFs File)
      → run cs tracker_miner_fs_init ≡ some fs
      → IsLinked fs
  reached-IsLinked cs fs e =
      let (gs, d, s) = run-init-IsLinked cs in subst IsLinked (some_inj gs fs (sym d ∙ e)) s

  -- After any calls on a new file-system miner, notify_roots_finished signals each root that is waiting to
  -- be signalled and has no event of its own in the queue any more once, and signals no other; behind
  -- it the roots that wait are those that waited and have such an event.
  pub run-init-notify :
      (cs : List (Call File)) (fs : MinerFs File) (root : File)
      → run cs tracker_miner_fs_init ≡ some fs
      → (times_listed root (notify_roots_finished fs).finished_roots ≡ (
          (if is_some (lookup root fs.roots_to_notify) && nat_eq (pending root fs) 0 then 1 else 0)
          + times_listed root fs.finished_roots))
        × (is_some (lookup root (notify_roots_finished fs).roots_to_notify)
            ≡ (is_some (lookup root fs.roots_to_notify) && not (nat_eq (pending root fs) 0)))
  run-init-notify cs fs root e =
      let linked = reached-IsLinked cs fs e in
      (times_listed-notify root fs linked, notify_roots_finished-waiting root fs linked)

  abbrev pub take_all : ℕ → List (Call File)
  take_all zero = notifies ∷ []
  take_all (suc n) = takes_next ∷ take_all n

  run-take_all :
      (n : ℕ) (fs : MinerFs File)
      → IsLinked fs
      → length (nodes fs.items) ≤ n
      → (gs : MinerFs File) × (run (take_all n) fs ≡ some gs)
        × ((r : File)
            → is_some (lookup r fs.roots_to_notify) ≡ true
            → is_listed r gs.finished_roots ≡ true)
  unfolding run step
  run-take_all zero fs s h = (
    notify_roots_finished fs,
    refl,
    λ r k.
        notify_roots_finished-pending r fs s
        ∙ ground (
          arith,
          k,
          ap (λ ns. count (λ n. is_root r n.elem.root) ns)
              (nil_of_length (nodes fs.items) (omega arith)),
        ),
  )
  run-take_all (suc n) fs s h =
      let (e, mid, out, t, shorter, waits) = item_queue_get_next_file-Takes fs s in
      let (gs, d, signalled) = run-take_all n mid t (omega arith) in
      (
        gs,
        bind_some (item_queue_get_next_file fs >>= λ r. some r.1) (run (take_all n)) mid _
            (bind_some (item_queue_get_next_file fs) (λ r. some r.1) (e, mid) _ out refl) d,
        λ r k. signalled r (waits r ∙ k),
      )

  -- After any calls on a new file-system miner, every root that waits to be signalled is signalled once all
  -- events are taken out of the queue and notify_roots_finished is called.
  pub run-init-take_all :
      (cs : List (Call File)) (fs : MinerFs File) (n : ℕ)
      → run cs tracker_miner_fs_init ≡ some fs
      → length (nodes fs.items) ≤ n
      → (gs : MinerFs File) × (run (take_all n) fs ≡ some gs)
        × ((root : File)
            → is_some (lookup root fs.roots_to_notify) ≡ true
            → is_listed root gs.finished_roots ≡ true)
  run-init-take_all cs fs n e h = run-take_all n fs (reached-IsLinked cs fs e) h
