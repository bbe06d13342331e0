-- ===== src/MinerFs.antt =====
-- src/miners/fs/tracker-miner-fs.c: the events on files that wait to be processed, and how two events
-- of one file become fewer.
pub mod Queue
mod Examples
use tracker_miners.Base.{
  Bool, true, false, not, ◌&&◌, ◌||◌, Option, none, some, List, [], ◌∷◌, ◌++◌, if◌then◌else◌, ◌==◌,
}
use tracker_miners.Base.Files.{FileOps, file_Eq, has_prefix}

pub data EventType : Type 0 where
  event_created event_updated event_deleted event_moved : EventType

-- The event's information on the file, and its places in queues, are not kept.
pub record QueueEvent (File : Type 0) : Type 0 where
  pub type : EventType
  pub attributes_update : Bool
  pub is_dir : Bool
  pub file : File
  pub dest_file : Option File

-- a QueueCoalesceAction, with the replacement
pub record Action (File : Type 0) : Type 0 where
  pub delete_first : Bool
  pub delete_second : Bool
  pub replacement : Option (QueueEvent File)

module _ {File : Type 0} where
  abbrev pub queue_event_new : EventType → File → QueueEvent File
  queue_event_new t f = record {
    type = t;
    attributes_update = false;
    is_dir = false;
    file = f;
    dest_file = none;
  }

  abbrev pub queue_event_moved_new : File → Option File → Bool → QueueEvent File
  queue_event_moved_new source dest is_dir = record {
    type = event_moved;
    attributes_update = false;
    is_dir = is_dir;
    file = source;
    dest_file = dest;
  }

  abbrev pub drops : Bool → Bool → Action File
  drops first second = record { delete_first = first; delete_second = second; replacement = none }

  -- for the destination of a move; an event of a NULL file cannot be
  abbrev pub created_at : Option File → Option (QueueEvent File)
  created_at none = none
  created_at (some f) = some (queue_event_new event_created f)

module _ {File : Type 0} ⦃ops : FileOps File⦄ where
  -- The code compares the first event's file and the second's destination as pointers; whether they
  -- are one object is an argument.
  unfoldable pub queue_event_coalesce : Bool → QueueEvent File → QueueEvent File → Action File
  queue_event_coalesce one_object first second =
      if not (first.file == second.file) then drops false false else elim first.type [
        | event_created ↦ elim second.type [
          | event_created ↦ drops true false
          | event_updated ↦ if second.attributes_update then drops false false else drops true false
          | event_moved ↦ record {
            delete_first = true;
            delete_second = true;
            replacement = created_at second.dest_file;
          }
          | event_deleted ↦ drops true false
        ]
        | event_updated ↦ elim second.type [
          | event_updated ↦
              if first.attributes_update && not second.attributes_update
              then drops true false
              else drops false true
          | event_deleted ↦ drops true false
          | _ ↦ drops false false
        ]
        | event_moved ↦ elim second.type [
          | event_moved ↦ record {
            delete_first = true;
            delete_second = true;
            replacement =
                if one_object
                then none
                else some (queue_event_moved_new first.file second.dest_file first.is_dir);
          }
          | event_deleted ↦ record {
            delete_first = true;
            delete_second = true;
            replacement = some (queue_event_new event_deleted first.file);
          }
          | _ ↦ drops false false
        ]
        | event_deleted ↦ elim second.type [
          | event_deleted ↦ drops false true
          | _ ↦ drops false false
        ]
      ]

  abbrev pub queue_event_is_equal_or_descendant : QueueEvent File → File → Bool
  queue_event_is_equal_or_descendant e prefix = e.file == prefix || has_prefix e.file prefix

  -- what miner_fs_queue_event leaves of the two, in their order
  abbrev pub left_of : Action File → QueueEvent File → QueueEvent File → List (QueueEvent File)
  left_of a first second = (if a.delete_first then [] else first ∷ []) ++ (elim a.replacement [
    | some r ↦ r ∷ []
    | none ↦ if a.delete_second then [] else second ∷ []
  ])
