-- ===== src/MinerFs/Queue.antt =====
-- src/miners/fs/tracker-miner-fs.c: the queue of events, the table of the last event of each file, and
-- the roots whose end is to be signalled.
-- The queue `items` is what the priority queue stands for, and an event is known by its link there. The
-- functions give none where the code would follow a pointer to an event, or to a root's queue, that is
-- freed. Every event has a new link.
pub mod Taking
pub mod Counts
pub mod Frees
pub mod Linked
pub mod Additions
pub mod Calls
pub mod Takes
pub mod Runs
pub mod Notified
use tracker_miners.Base.Options.{◌>>=◌}
use tracker_miners.Base.{
  ℕ, zero, suc, ◌+◌, ◌*◌, Bool, true, false, not, ◌&&◌, ◌||◌, Option, none, some, List, [], ◌∷◌,
  ◌++◌, nat_eq, ltb, if◌then◌else◌, ◌==◌, length, filter, Table, lookup, insert, remove_key,
  remove_keys,
}
use tracker_miners.Base.Int.{ℤ}
use tracker_miners.Base.Files.{FileOps, file_Eq, has_prefix}
use tracker_miners.PriorityQueue.{Node}
use tracker_miners.PriorityQueue.Groups.{Group, nodes, add_to_groups}
use tracker_miners.PriorityQueue.Neighbours.{remove_from_groups}
use tracker_miners.PriorityQueue.ForeachRemove.{remove_passing}
use tracker_miners.PriorityQueue.Pop.{pop_group}
use tracker_miners.MinerFs.{
  EventType, event_deleted, event_moved, QueueEvent, Action, queue_event_coalesce,
  queue_event_is_equal_or_descendant,
}

-- g_queue_delete_link
unfoldable pub delete_node : ℕ → List ℕ → Option (List ℕ)
delete_node l [] = none
delete_node l (k ∷ ks) =
    let rest = delete_node l ks in if nat_eq k l then some ks else rest >>= λ r. some (k ∷ r)

-- a queued event, and the root in whose queue its root_node is
pub record Item (File : Type 0) : Type 0 where
  pub event : QueueEvent File
  pub root : Option File

-- The files of `items_by_file` lead to links of events, the roots to the root_nodes in their queues. What
-- is signalled as FINISHED_ROOT is `finished_roots`, the latest first.
pub record MinerFs (File : Type 0) : Type 0 where
  pub items : List (Group (Item File))
  pub items_by_file : Table File ℕ
  pub roots_to_notify : Table File (List ℕ)
  pub finished_roots : List File
  pub item_queues_handler : Bool
  pub is_paused : Bool
  pub high_water : Bool
  pub next_link : ℕ

module _ {File : Type 0} where
  abbrev pub tracker_miner_fs_init : MinerFs File
  tracker_miner_fs_init = record {
    items = [];
    items_by_file = [];
    roots_to_notify = [];
    finished_roots = [];
    item_queues_handler = false;
    is_paused = false;
    high_water = false;
    next_link = 0;
  }

  abbrev pub find_item : ℕ → List (Node (Item File)) → Option (Item File)
  find_item l [] = none
  find_item l (n ∷ ns) = if nat_eq n.link l then some n.elem else find_item l ns

  -- `limit_reached` is of the SPARQL buffer, a task pool.
  abbrev pub item_queue_handlers_set_up : Bool → MinerFs File → MinerFs File
  item_queue_handlers_set_up limit_reached fs =
      if fs.item_queues_handler || fs.is_paused || limit_reached
      then fs
      else record fs { item_queues_handler = true }

  abbrev pub check_notifier_high_water : MinerFs File → MinerFs File
  check_notifier_high_water fs = record fs { high_water = ltb (2 * 800) (length (nodes fs.items)) }

module _ {File : Type 0} ⦃ops : FileOps File⦄ where
  -- queue_event_free, as far as the root's queue goes
  unfoldable pub queue_event_free :
      Node (Item File) → Table File (List ℕ) → Option (Table File (List ℕ))
  queue_event_free n roots = elim n.elem.root [
    | none ↦ some roots
    | some r ↦
        lookup r roots >>= λ queue. delete_node n.link queue >>= λ rest. some (insert r rest roots)
  ]

  unfoldable pub free_all :
      List (Node (Item File)) → Table File (List ℕ) → Option (Table File (List ℕ))
  free_all [] roots = some roots
  free_all (n ∷ ns) roots = queue_event_free n roots >>= free_all ns

  abbrev pub is_below : File → File → Bool
  is_below prefix file = file == prefix || has_prefix file prefix

  abbrev pub item_below : File → Item File → Bool
  item_below prefix i = queue_event_is_equal_or_descendant i.event prefix

  abbrev pub without_below : File → MinerFs File → Table File (List ℕ) → MinerFs File
  without_below prefix fs roots = record fs {
    items_by_file = remove_keys (is_below prefix) fs.items_by_file;
    items = remove_passing (item_below prefix) fs.items;
    roots_to_notify = roots;
  }

  -- The two calls that take the events of a file and of what is below it out of the table and the queue.
  unfoldable pub remove_below : File → MinerFs File → Option (MinerFs File)
  remove_below prefix fs =
      free_all (filter (λ n. item_below prefix n.elem) (nodes fs.items)) fs.roots_to_notify
      >>= λ roots. some (without_below prefix fs roots)

  abbrev pub target : QueueEvent File → File
  target e = elim e.dest_file [ some f ↦ f | none ↦ e.file ]

  -- `get_root` is the indexing tree's.
  unfoldable pub assign_root_node :
      (File → Option File)
      → QueueEvent File
      → ℕ
      → Table File (List ℕ)
      → Option File × Table File (List ℕ)
  assign_root_node get_root e link roots = elim (get_root (target e)) [
    | none ↦ (none, roots)
    | some r ↦ elim (lookup r roots) [
      | none ↦ (some r, insert r (link ∷ []) roots)
      | some queue ↦ (some r, insert r (link ∷ queue) roots)
    ]
  ]

  -- the part of miner_fs_queue_event that adds the event
  unfoldable pub add_event :
      (File → Option File) → ℤ → QueueEvent File → MinerFs File → MinerFs File
  add_event get_root priority e fs =
      let assigned = assign_root_node get_root e fs.next_link fs.roots_to_notify in
      record fs {
        items =
            add_to_groups priority
              (record { link = fs.next_link; elem = record { event = e; root = assigned.0 } })
              fs.items;
        items_by_file = insert e.file fs.next_link fs.items_by_file;
        roots_to_notify = assigned.1;
        next_link = suc fs.next_link;
      }

  -- for the deletion of a directory, while the table is not big
  abbrev pub remove_children : EventType → Bool → File → MinerFs File → Option (MinerFs File)
  remove_children event_deleted true file fs =
      if ltb (length fs.items_by_file) 1000 then remove_below file fs else some fs
  remove_children type is_dir file fs = some fs

  abbrev pub finish_event :
      (File → Option File)
      → Bool
      → ℤ
      → Option (QueueEvent File)
      → MinerFs File
      → Option (MinerFs File)
  finish_event get_root limit_reached priority none fs = some fs
  finish_event get_root limit_reached priority (some e) fs =
      remove_children e.type e.is_dir e.file fs >>= λ fs. some (
        check_notifier_high_water
          (item_queue_handlers_set_up limit_reached (add_event get_root priority e fs)))

  abbrev pub without_old : ℕ → Item File → MinerFs File → Table File (List ℕ) → MinerFs File
  without_old link old fs roots = record fs {
    items_by_file = remove_key old.event.file fs.items_by_file;
    items = remove_from_groups link fs.items;
    roots_to_notify = roots;
  }

  unfoldable pub delete_old : ℕ → Item File → MinerFs File → Option (MinerFs File)
  delete_old link old fs =
      queue_event_free (record { link = link; elem = old }) fs.roots_to_notify >>= λ roots.
      some (without_old link old fs roots)

  abbrev pub remaining : Action File → QueueEvent File → Option (QueueEvent File)
  remaining a e = elim a.replacement [
    | some r ↦ some r
    | none ↦ if a.delete_second then none else some e
  ]

  -- The coalescing with the last event of the file, where there is one. Whether the one's file and the
  -- other's destination are one object, `one_object`, is an argument.
  abbrev pub coalesce_old :
      Bool
      → QueueEvent File
      → MinerFs File
      → Option ℕ
      → Option (Option (QueueEvent File) × MinerFs File)
  coalesce_old one_object e fs none = some (some e, fs)
  coalesce_old one_object e fs (some link) = find_item link (nodes fs.items) >>= λ old.
      let a = queue_event_coalesce one_object old.event e in
      (if a.delete_first then delete_old link old fs else some fs) >>= λ fs.
      some (remaining a e, fs)

  abbrev pub clear_destination : EventType → Option File → MinerFs File → Option (MinerFs File)
  clear_destination event_moved (some dest) fs = remove_below dest fs
  clear_destination type dest fs = some fs

  unfoldable pub miner_fs_queue_event :
      (File → Option File)
      → Bool
      → Bool
      → ℤ
      → QueueEvent File
      → MinerFs File
      → Option (MinerFs File)
  miner_fs_queue_event get_root limit_reached one_object priority e fs =
      clear_destination e.type e.dest_file fs >>= λ fs.
      coalesce_old one_object e fs (lookup e.file fs.items_by_file) >>= λ (left, fs).
      finish_event get_root limit_reached priority left fs

  abbrev pub indexing_tree_directory_removed : File → MinerFs File → Option (MinerFs File)
  indexing_tree_directory_removed directory fs = remove_below directory fs
