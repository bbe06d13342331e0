-- ===== src/MinerFs/Queue/Calls.antt =====
-- Each call on the queue of a file-system miner, on a state whose links hold.
use tracker_miners.Base.Options.{bind_some, ◌>>=◌}
use tracker_miners.Base.{
  ℕ, ◌≡◌, refl, sym, subst, Bool, true, false, ◌||◌, if◌then◌else◌, Bool-cases, inl, inr, Option,
  none, some, lookup,
}
use tracker_miners.Base.Int.{ℤ}
use tracker_miners.Base.Files.{FileOps, file_Eq}
use tracker_miners.PriorityQueue.Groups.{nodes}
use tracker_miners.MinerFs.{
  EventType, QueueEvent, event_created, event_updated, event_deleted, event_moved, Action,
  queue_event_coalesce,
}
use tracker_miners.MinerFs.Queue.{
  MinerFs, add_event, delete_old, remaining, coalesce_old, clear_destination, remove_children,
  finish_event, miner_fs_queue_event, item_queue_handlers_set_up, check_notifier_high_water,
}
use tracker_miners.MinerFs.Queue.Linked.{
  IsLinked, Keeps, remove_below-Keeps, find_item-counts, delete_old-Keeps,
}
use tracker_miners.MinerFs.Queue.Additions.{add_event-IsLinked}

module _ {File : Type 0} ⦃ops : FileOps File⦄ where
  pub Keeps-bind :
      (o : Option (MinerFs File)) (f : MinerFs File → Option (MinerFs File))
      → Keeps o
      → ((fs : MinerFs File) → IsLinked fs → Keeps (f fs))
      → Keeps (o >>= f)
  Keeps-bind o f (fs, e, s) h = subst (λ x. Keeps (x >>= f)) (sym e) (h fs s)

  clear_destination-Keeps :
      (type : EventType) (dest : Option File) (fs : MinerFs File)
      → IsLinked fs
      → Keeps (clear_destination type dest fs)
  clear_destination-Keeps event_moved (some dest) fs s = remove_below-Keeps dest fs s
  clear_destination-Keeps event_moved none fs s = (fs, refl, s)
  clear_destination-Keeps event_created dest fs s = (fs, refl, s)
  clear_destination-Keeps event_updated dest fs s = (fs, refl, s)
  clear_destination-Keeps event_deleted dest fs s = (fs, refl, s)

  Keeps-if :
      (b : Bool) (o p : Option (MinerFs File)) → Keeps o → Keeps p → Keeps (if b then o else p)
  Keeps-if true o p h k = h
  Keeps-if false o p h k = k

  remove_children-Keeps :
      (type : EventType) (is_dir : Bool) (file : File) (fs : MinerFs File)
      → IsLinked fs
      → Keeps (remove_children type is_dir file fs)
  remove_children-Keeps event_deleted true file fs s =
      Keeps-if _ _ _ (remove_below-Keeps file fs s) (fs, refl, s)
  remove_children-Keeps event_deleted false file fs s = (fs, refl, s)
  remove_children-Keeps event_moved is_dir file fs s = (fs, refl, s)
  remove_children-Keeps event_created is_dir file fs s = (fs, refl, s)
  remove_children-Keeps event_updated is_dir file fs s = (fs, refl, s)

  -- the parts of the state that the links are about
  abbrev HasSameQueue : MinerFs File → MinerFs File → Type 0
  HasSameQueue fs gs =
      (fs.items ≡ gs.items)
      × (fs.items_by_file ≡ gs.items_by_file)
      × (fs.roots_to_notify ≡ gs.roots_to_notify)
      × (fs.next_link ≡ gs.next_link)

  set_up-IsLinked :
      (limit_reached : Bool) (fs : MinerFs File)
      → IsLinked fs
      → IsLinked (item_queue_handlers_set_up limit_reached fs)
  set_up-IsLinked limit_reached fs s =
      elim (Bool-cases (fs.item_queues_handler || fs.is_paused || limit_reached)) [
        | inl cancelled ↦ rw (item_queue_handlers_set_up, cancelled) s
        | inr scheduled ↦
            rw (item_queue_handlers_set_up, scheduled)
              (record {
                links = s.links;
                rooted = s.rooted;
                indexed = s.indexed;
                unique = s.unique;
              })
      ]

  finish_event-Keeps :
      (get_root : File → Option File) (limit_reached : Bool) (priority : ℤ)
      (left : Option (QueueEvent File)) (fs : MinerFs File)
      → IsLinked fs
      → Keeps (finish_event get_root limit_reached priority left fs)
  finish_event-Keeps get_root limit_reached priority none fs s = (fs, refl, s)
  finish_event-Keeps get_root limit_reached priority (some e) fs s =
      Keeps-bind (remove_children e.type e.is_dir e.file fs) _
        (remove_children-Keeps e.type e.is_dir e.file fs s)
        λ gs t.
          let added =
            set_up-IsLinked limit_reached (add_event get_root priority e gs)
              (add_event-IsLinked get_root priority e gs t) in
          (
            check_notifier_high_water
                (item_queue_handlers_set_up limit_reached (add_event get_root priority e gs)),
            refl,
            record {
              links = added.links;
              rooted = added.rooted;
              indexed = added.indexed;
              unique = added.unique;
            },
          )

  -- as Keeps, for a call that gives a value too
  abbrev pub KeepsWith : {A : Type 0} → Option (A × MinerFs File) → Type 0
  KeepsWith {A} o = (a : A) × (fs : MinerFs File) × (o ≡ some (a, fs)) × IsLinked fs

  coalesce_old-KeepsWith :
      (one_object : Bool) (e : QueueEvent File) (fs : MinerFs File) (o : Option ℕ)
      → lookup e.file fs.items_by_file ≡ o
      → IsLinked fs
      → KeepsWith (coalesce_old one_object e fs o)
  coalesce_old-KeepsWith one_object e fs none known s = (some e, fs, refl, s)
  coalesce_old-KeepsWith one_object e fs (some link) known s =
      let (old, found) =
        find_item-counts e.file link (nodes fs.items) (s.indexed e.file link known) in
      let a : Action File = queue_event_coalesce one_object old.event e in
      let (gs, kept, t) =
        Keeps-if a.delete_first (delete_old link old fs) (some fs)
          (delete_old-Keeps link old fs found s) (fs, refl, s) in
      (remaining a e, gs, bind_some _ _ old _ found (bind_some _ _ gs _ kept refl), t)

  pub queue_event-Keeps :
      (get_root : File → Option File) (limit_reached one_object : Bool) (priority : ℤ)
      (e : QueueEvent File) (fs : MinerFs File)
      → IsLinked fs
      → Keeps (miner_fs_queue_event get_root limit_reached one_object priority e fs)
  unfolding miner_fs_queue_event
  queue_event-Keeps get_root limit_reached one_object priority e fs s =
      Keeps-bind (clear_destination e.type e.dest_file fs) _
        (clear_destination-Keeps e.type e.dest_file fs s)
        λ gs t.
          let (left, hs, c, u) =
            coalesce_old-KeepsWith one_object e gs (lookup e.file gs.items_by_file) refl t in
          subst Keeps
            (sym (
              bind_some _ (λ r. finish_event get_root limit_reached priority r.0 r.1) (left, hs) _ c
                refl))
            (finish_event-Keeps get_root limit_reached priority left hs u)
