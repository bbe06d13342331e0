-- ===== src/PriorityQueue.antt =====
-- src/miners/fs/tracker-priority-queue.c: a queue of elements by priority, first in first out among
-- equals. The `GQueue` is the list of its links, each with its address; a segment names by address
-- the first and the last link of one priority. `none` is a fault: a failed g_assert, an index outside
-- of the array of segments, or a link that is not in the queue.
-- Priorities are a `gint`; the array of segments has fewer than 2 ^ 30 entries, so that the sums of
-- two indices in the binary search do not overflow. Reference counts are not modelled.
pub mod Groups
mod Links
mod BinarySearch
mod Split
mod Places
pub mod Insert
pub mod Removal
pub mod Pop
pub mod Neighbours
pub mod RemoveNode
pub mod RemoveValid
pub mod Runs
mod Examples
mod Rounds
pub mod ForeachRemove
pub mod Finding
use tracker_miners.Base.Options.{◌>>=◌}
use tracker_miners.Base.{
  ℕ, zero, suc, ◌+◌, ◌-◌, ◌/◌, Bool, true, false, ◌&&◌, Option, none, some, List, [], ◌∷◌, ◌++◌,
  ltb, nat_eq, if◌then◌else◌, length, get_elem?, set,
}
use tracker_miners.Base.Int.{ℤ, ltb_ℤ, eq_ℤ}

pub record Node (A : Type 0) : Type 0 where
  pub link : ℕ
  pub elem : A

pub record Segment : Type 0 where
  pub priority : ℤ
  pub first_elem : ℕ
  pub last_elem : ℕ

pub record PriorityQueue (A : Type 0) : Type 0 where
  pub queue : List (Node A)
  pub segments : List Segment

-- g_array_insert_val; an index past the end appends
unfoldable pub insert_val : List Segment → ℕ → Segment → List Segment
insert_val [] i s = s ∷ []
insert_val (t ∷ ts) zero s = s ∷ t ∷ ts
insert_val (t ∷ ts) (suc i) s = t ∷ insert_val ts i s

-- g_array_remove_index
unfoldable pub remove_index : List Segment → ℕ → List Segment
remove_index [] i = []
remove_index (t ∷ ts) zero = ts
remove_index (t ∷ ts) (suc i) = t ∷ remove_index ts i

-- How a binary search ends: at a segment of the priority, at a neighbour of its place, in an empty
-- array, or in a fault.
pub data Search : Type 0 where
  found closest : ℕ → Segment → Search
  no_segments fault : Search

-- The loop of insert_node. `r` is a number here: where the code sets it to -1, which is `c - 1` for
-- `c = 0`, the test `l > r` ends the loop at once.
unfoldable pub search_loop : ℕ → ℕ → ℕ → List Segment → ℤ → Search
search_loop zero l r segments priority = fault
search_loop (suc fuel) l r segments priority =
    let c = (r + l) / 2 in
    let left = search_loop fuel l (c - 1) segments priority in
    let right = search_loop fuel (c + 1) r segments priority in
    elim (get_elem? segments c) [
      | none ↦ fault
      | some segment ↦
          if eq_ℤ segment.priority priority
          then found c segment
          else if ltb_ℤ priority segment.priority
          then (if ltb c (l + 1) then closest c segment else left)
          else (if ltb r (c + 1) then closest c segment else right)
    ]

unfoldable pub search_segment : List Segment → ℤ → Search
search_segment [] priority = no_segments
search_segment (s ∷ ss) priority =
    search_loop (length (s ∷ ss)) 0 (length (s ∷ ss) - 1) (s ∷ ss) priority

module _ {A : Type 0} where
  abbrev pub is_head : ℕ → List (Node A) → Bool
  is_head p [] = false
  is_head p (x ∷ xs) = nat_eq x.link p

  abbrev pub is_tail : ℕ → List (Node A) → Bool
  is_tail p [] = false
  is_tail p (x ∷ []) = nat_eq x.link p
  is_tail p (x ∷ y ∷ ys) = is_tail p (y ∷ ys)

  -- p->next, where the link has one
  unfoldable pub next_of : ℕ → List (Node A) → Option ℕ
  next_of p [] = none
  next_of p (x ∷ []) = none
  next_of p (x ∷ y ∷ ys) = if nat_eq x.link p then some y.link else next_of p (y ∷ ys)

  -- p->prev, where the link has one
  unfoldable pub prev_of : ℕ → List (Node A) → Option ℕ
  prev_of p [] = none
  prev_of p (x ∷ []) = none
  prev_of p (x ∷ y ∷ ys) = if nat_eq y.link p then some x.link else prev_of p (y ∷ ys)

  -- g_queue_delete_link, g_queue_unlink
  unfoldable pub delete_link : ℕ → List (Node A) → List (Node A)
  delete_link p [] = []
  delete_link p (x ∷ xs) = if nat_eq x.link p then xs else x ∷ delete_link p xs

  -- the pointer writes of queue_insert_before_link
  unfoldable pub link_before : List (Node A) → ℕ → Node A → Option (List (Node A))
  link_before [] sibling n = none
  link_before (x ∷ xs) sibling n =
      let rest = link_before xs sibling n in
      if nat_eq x.link sibling then some (n ∷ x ∷ xs) else (rest >>= λ ys. some (x ∷ ys))

  unfoldable pub queue_insert_before_link : List (Node A) → ℕ → Node A → Option (List (Node A))
  queue_insert_before_link q sibling n =
      if is_head sibling q then some (n ∷ q) else link_before q sibling n

  unfoldable pub queue_insert_after_link : List (Node A) → ℕ → Node A → Option (List (Node A))
  queue_insert_after_link q sibling n =
      if is_tail sibling q
      then some (q ++ n ∷ [])
      else (next_of sibling q >>= λ next. queue_insert_before_link q next n)

  abbrev pub new_segment : ℤ → Node A → Segment
  new_segment priority n = record { priority = priority; first_elem = n.link; last_elem = n.link }

  unfoldable pub insert_at : PriorityQueue A → ℤ → Node A → Search → Option (PriorityQueue A)
  insert_at q priority n (found c segment) =
      queue_insert_after_link q.queue segment.last_elem n >>= λ queue. some (record {
        queue = queue;
        segments = set q.segments c (record segment { last_elem = n.link });
      })
  insert_at q priority n (closest c segment) =
      if ltb_ℤ priority segment.priority
      then (queue_insert_before_link q.queue segment.first_elem n >>= λ queue.
          some
            (record { queue = queue; segments = insert_val q.segments c (new_segment priority n) }))
      else (queue_insert_after_link q.queue segment.last_elem n >>= λ queue. some (record {
        queue = queue;
        segments = insert_val q.segments (c + 1) (new_segment priority n);
      }))
  insert_at q priority n no_segments = elim q.queue [
    | [] ↦ some (record { queue = n ∷ []; segments = new_segment priority n ∷ [] })
    | _ ∷ _ ↦ none
  ]
  insert_at q priority n fault = none

  -- insert_node, which tracker_priority_queue_add and tracker_priority_queue_add_node call
  unfoldable pub insert_node : PriorityQueue A → ℤ → Node A → Option (PriorityQueue A)
  insert_node q priority n = insert_at q priority n (search_segment q.segments priority)
