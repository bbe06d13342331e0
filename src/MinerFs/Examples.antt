-- ===== src/MinerFs/Examples.antt =====
-- The theorems at an update and a deletion of one folder.
use tracker_miners.Base.{◌≡◌, refl, true, false, Option, none, some, [], ◌∷◌}
use tracker_miners.Base.{List, is_some, arith, lookup, insert, remove_key}
use tracker_miners.Base.Int.{pos}
use tracker_miners.PriorityQueue.Groups.{add_to_groups}
use tracker_miners.MinerFs.Queue.{
  MinerFs, tracker_miner_fs_init, miner_fs_queue_event, add_event, assign_root_node,
  queue_event_free, delete_node,
}
use tracker_miners.MinerFs.Queue.Taking.{item_queue_get_next_file, notify_roots_finished}
use tracker_miners.MinerFs.Queue.Linked.{IsLinked}
use tracker_miners.MinerFs.Queue.Notified.{is_listed, times_listed}
use tracker_miners.MinerFs.Queue.Runs.{
  Call, queues, takes_next, step, run, take_all, run-init-IsLinked, run-init-notify,
  run-init-take_all,
}
use tracker_miners.Samples.{Location, location_ops, location_Eq}
use tracker_miners.MinerFs.{QueueEvent, event_updated, event_deleted, queue_event_coalesce, left_of}

abbrev folder : Location
folder = 1 ∷ []

abbrev updated : QueueEvent Location
updated = record {
  type = event_updated;
  attributes_update = true;
  is_dir = false;
  file = folder;
  dest_file = none;
}

abbrev deleted : QueueEvent Location
deleted = record {
  type = event_deleted;
  attributes_update = false;
  is_dir = true;
  file = folder;
  dest_file = none;
}

deleted_left : left_of (queue_event_coalesce false updated deleted) updated deleted ≡ deleted ∷ []
unfolding queue_event_coalesce
deleted_left = refl

-- the folder is its own root
abbrev rooted_at : Location → Option Location
rooted_at f = some folder

abbrev two_calls : List (Call Location)
two_calls = queues rooted_at false false (pos 0) updated ∷ takes_next ∷ []

-- the state behind them, in which the folder waits to be signalled
abbrev waiting : MinerFs Location
waiting = record {
  items = [];
  items_by_file = [];
  roots_to_notify = (folder, []) ∷ [];
  finished_roots = [];
  item_queues_handler = true;
  is_paused = false;
  high_water = false;
  next_link = 1;
}

two_calls-waiting : run two_calls tracker_miner_fs_init ≡ some waiting
unfolding run step miner_fs_queue_event add_event assign_root_node item_queue_get_next_file
    queue_event_free delete_node add_to_groups lookup insert remove_key
two_calls-waiting = refl

run-init-IsLinked_example :
    (fs : MinerFs Location) × (run two_calls tracker_miner_fs_init ≡ some fs) × IsLinked fs
run-init-IsLinked_example = run-init-IsLinked two_calls

run-init-notify_example :
    (times_listed folder (notify_roots_finished waiting).finished_roots ≡ 1)
    × (is_some (lookup folder (notify_roots_finished waiting).roots_to_notify) ≡ false)
unfolding lookup
run-init-notify_example = run-init-notify two_calls waiting folder two_calls-waiting

run-init-take_all_example :
    (gs : MinerFs Location) × (run (take_all 2) waiting ≡ some gs)
    × ((root : Location)
        → is_some (lookup root waiting.roots_to_notify) ≡ true
        → is_listed root gs.finished_roots ≡ true)
run-init-take_all_example = run-init-take_all two_calls waiting 2 two_calls-waiting (omega arith)
