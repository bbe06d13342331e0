-- ===== src/MinerFs/Queue/Taking.antt =====
-- item_queue_get_next_file and notify_roots_finished.
use tracker_miners.Base.Options.{◌>>=◌}
use tracker_miners.Base.{
  ℕ, Option, none, some, List, [], ◌∷◌, ◌++◌, nat_eq, if◌then◌else◌, Table, lookup, remove_key,
}
use tracker_miners.Base.Int.{ℤ}
use tracker_miners.Base.Files.{FileOps, file_Eq}
use tracker_miners.PriorityQueue.{Node}
use tracker_miners.PriorityQueue.Groups.{Group}
use tracker_miners.PriorityQueue.Pop.{pop_group}
use tracker_miners.MinerFs.{QueueEvent}
use tracker_miners.MinerFs.Queue.{Item, MinerFs, queue_event_free}

module _ {File : Type 0} where
  -- the roots whose queues are empty, and the table without them
  unfoldable pub take_empty : Table File (List ℕ) → List File × Table File (List ℕ)
  take_empty [] = ([], [])
  take_empty ((r, []) ∷ t) = let rest = take_empty t in (r ∷ rest.0, rest.1)
  take_empty ((r, q ∷ qs) ∷ t) = let rest = take_empty t in (rest.0, (r, q ∷ qs) ∷ rest.1)

  unfoldable pub notify_roots_finished : MinerFs File → MinerFs File
  notify_roots_finished fs = record fs {
    roots_to_notify = (take_empty fs.roots_to_notify).1;
    finished_roots = (take_empty fs.roots_to_notify).0 ++ fs.finished_roots;
  }

module _ {File : Type 0} ⦃ops : FileOps File⦄ where
  abbrev pub maybe_remove_file_event_node : ℕ → QueueEvent File → Table File ℕ → Table File ℕ
  maybe_remove_file_event_node link e t = elim (lookup e.file t) [
    | none ↦ t
    | some l ↦ if nat_eq l link then remove_key e.file t else t
  ]

  abbrev pub without_first :
      Node (Item File)
      → List (Group (Item File))
      → MinerFs File
      → Table File (List ℕ)
      → MinerFs File
  without_first n items fs roots = record fs {
    items = items;
    items_by_file = maybe_remove_file_event_node n.link n.elem.event fs.items_by_file;
    roots_to_notify = roots;
  }

  -- the event that is taken out, of which the code gives the parts, and the state behind it
  abbrev pub take_item :
      Option (ℤ × Node (Item File))
      → List (Group (Item File))
      → MinerFs File
      → Option (Option (QueueEvent File) × MinerFs File)
  take_item none items fs = some (none, fs)
  take_item (some (priority, n)) items fs = queue_event_free n fs.roots_to_notify >>= λ roots.
      some (some n.elem.event, without_first n items fs roots)

  unfoldable pub item_queue_get_next_file :
      MinerFs File → Option (Option (QueueEvent File) × MinerFs File)
  item_queue_get_next_file fs = take_item (pop_group fs.items).0 (pop_group fs.items).1 fs
