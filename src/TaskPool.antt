-- ===== src/TaskPool.antt =====
-- src/miners/fs/tracker-task-pool.c: a bounded pool of pending tasks with an index by file.
-- A task is a pointer, a number; `heap` holds the `TrackerTask` that it points to, whose file and
-- data no code changes. Reference counts are not modelled. A `notify::limit-reached` that an
-- operation emits is a Boolean of its result.
pub mod Index
pub mod Limit
mod Examples
use tracker_miners.Base.{
  ℕ, ◌+◌, ◌-◌, ◌%◌, ◌^◌, Bool, true, false, not, Option, none, some, List, [], ◌∷◌, ◌++◌, Eq, Table,
  lookup, remove_key, insert, leb, nat_eq, if◌then◌else◌, is_some, length,
}

pub record Task (File A : Type 0) : Type 0 where
  pub file : File
  pub content : A

pub record TaskPool (File : Type 0) : Type 0 where
  pub tasks : List ℕ
  pub tasks_by_file : Table File (List ℕ)
  pub limit : ℕ

abbrev pub guint_size : ℕ
guint_size = 2 ^ 32

-- g_list_remove: drops the first occurrence.
unfoldable pub list_remove : List ℕ → ℕ → List ℕ
list_remove [] t = []
list_remove (x ∷ xs) t = if nat_eq x t then xs else x ∷ list_remove xs t

-- The last element, moved to the front.
unfoldable pub rotate_last : List ℕ → List ℕ
rotate_last [] = []
rotate_last (x ∷ xs) = elim (rotate_last xs) [ [] ↦ x ∷ [] | y ∷ ys ↦ y ∷ x ∷ ys ]

-- g_ptr_array_remove_fast: the last element takes the place of the first occurrence.
unfoldable pub remove_fast : List ℕ → ℕ → Option (List ℕ)
unfolding rotate_last
remove_fast [] t = none
remove_fast (x ∷ xs) t =
    let rest = remove_fast xs t in
    if nat_eq x t
    then some (rotate_last xs)
    else elim rest [ none ↦ none | some ys ↦ some (x ∷ ys) ]

abbrev pub list_or_empty : Option (List ℕ) → List ℕ
list_or_empty none = []
list_or_empty (some l) = l

-- An operation's new pool, whether it emitted `notify::limit-reached`, and what it returned.
pub record Outcome (File : Type 0) : Type 0 where
  pub pool : TaskPool File
  pub notified : Bool
  pub returned : Bool

unfoldable pub xor : Bool → Bool → Bool
xor a b = if a then not b else b

module _ {File : Type 0} where
  abbrev pub init : TaskPool File
  init = record { tasks = []; tasks_by_file = []; limit = 0 }

  unfoldable pub limit_reached : TaskPool File → Bool
  limit_reached p = leb p.limit (length p.tasks)

  abbrev pub get_size : TaskPool File → ℕ
  get_size p = length p.tasks

  unfoldable pub set_limit : TaskPool File → ℕ → Outcome File
  unfolding limit_reached xor
  set_limit p limit =
      let old_limit_reached = limit_reached p in
      let p' = record p { limit = limit } in
      record { pool = p'; notified = xor old_limit_reached (limit_reached p'); returned = true }

-- The calls that change a pool.
pub data Call : Type 0 where
  adds removes sets_limit : ℕ → Call

module _ {File : Type 0} ⦃e : Eq File⦄ where
  -- other_tasks, put back under its file unless it is empty
  abbrev pub store_tasks : File → List ℕ → Table File (List ℕ) → Table File (List ℕ)
  store_tasks f [] t = remove_key f t
  store_tasks f (x ∷ xs) t = insert f (x ∷ xs) t

  unfoldable pub find : TaskPool File → File → Bool
  find p file = is_some (lookup file p.tasks_by_file)

module _ {File A : Type 0} ⦃e : Eq File⦄ (heap : ℕ → Task File A) where
  unfoldable pub get_file : ℕ → File
  get_file t = (heap t).file

  unfoldable pub add : TaskPool File → ℕ → Outcome File
  unfolding get_file
  add p task =
      let file = get_file task in
      let tasks = p.tasks ++ task ∷ [] in
      let other_tasks = list_or_empty (lookup file p.tasks_by_file) in
      let stolen = remove_key file p.tasks_by_file in
      record {
        pool = record p { tasks = tasks; tasks_by_file = insert file (task ∷ other_tasks) stolen };
        notified = nat_eq (length tasks) p.limit;
        returned = true;
      }

  unfoldable pub remove : TaskPool File → ℕ → Outcome File
  unfolding get_file list_remove remove_fast
  remove p task =
      let file = get_file task in
      let other_tasks = list_remove (list_or_empty (lookup file p.tasks_by_file)) task in
      let stolen = remove_key file p.tasks_by_file in
      let p' = record p { tasks_by_file = store_tasks file other_tasks stolen } in
      elim (remove_fast p.tasks task) [
        | none ↦ record { pool = p'; notified = false; returned = false }
        | some tasks ↦ record {
          pool = record p' { tasks = tasks };
          notified = nat_eq (length tasks) ((p.limit + guint_size - 1) % guint_size);
          returned = true;
        }
      ]

  unfoldable pub step : TaskPool File → Call → Outcome File
  unfolding add remove set_limit
  step p (adds t) = add p t
  step p (removes t) = remove p t
  step p (sets_limit n) = set_limit p n

  unfoldable pub run : TaskPool File → List Call → TaskPool File
  unfolding step
  run p [] = p
  run p (c ∷ cs) = run (step p c).pool cs
