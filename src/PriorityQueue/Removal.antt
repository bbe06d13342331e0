-- ===== src/PriorityQueue/Removal.antt =====
-- What takes elements out of a priority queue, or looks at them: the head, a link, or all that pass a
-- test. `none` is a fault, as in the parent module.
use tracker_miners.Base.Options.{◌>>=◌}
use tracker_miners.Base.{
  ℕ, ◌+◌, Bool, true, false, ◌&&◌, Option, none, some, List, [], ◌∷◌, ◌++◌, nat_eq, if◌then◌else◌,
  length, get_elem?, set,
}
use tracker_miners.Base.Int.{ℤ}
use tracker_miners.PriorityQueue.{
  Node, Segment, PriorityQueue, next_of, prev_of, delete_link, remove_index,
}

-- The loop of tracker_priority_queue_remove_node: the first segment that begins or ends at the link
-- is cut short, or dropped if it holds nothing else. `next` and `prev` are those of the link.
unfoldable pub trim_segments : ℕ → Option ℕ → Option ℕ → List Segment → Option (List Segment)
trim_segments p next prev [] = some []
trim_segments p next prev (s ∷ ss) =
    let rest = trim_segments p next prev ss in
    if nat_eq s.first_elem p
    then (if nat_eq s.last_elem p
        then some ss
        else (next >>= λ l. some (record s { first_elem = l } ∷ ss)))
    else if nat_eq s.last_elem p
    then (prev >>= λ l. some (record s { last_elem = l } ∷ ss))
    else (rest >>= λ ts. some (s ∷ ts))

module _ {A : Type 0} where
  -- tracker_priority_queue_pop_node, with the priority that it hands out; `none` inside is an empty
  -- queue.
  unfoldable pub pop_node : PriorityQueue A → Option (Option (ℤ × Node A) × PriorityQueue A)
  pop_node q = elim q.queue [
    | [] ↦ some (none, q)
    | n ∷ rest ↦ elim q.segments [
      | [] ↦ none
      | segment ∷ segments ↦
          if nat_eq segment.first_elem n.link
          then (if nat_eq segment.last_elem n.link
              then some (some (segment.priority, n), record { queue = rest; segments = segments })
              else (next_of segment.first_elem q.queue >>= λ next. some (
                some (segment.priority, n),
                record { queue = rest; segments = record segment { first_elem = next } ∷ segments },
              )))
          else none
    ]
  ]

  -- tracker_priority_queue_peek: the head's element, with the first segment's priority
  unfoldable pub peek : PriorityQueue A → Option (Option ℤ × A)
  peek q = elim q.queue [
    | [] ↦ none
    | n ∷ rest ↦ elim q.segments [
      | [] ↦ some (none, n.elem)
      | segment ∷ segments ↦ some (some segment.priority, n.elem)
    ]
  ]

  abbrev pub is_empty : PriorityQueue A → Bool
  is_empty q = elim q.queue [ [] ↦ true | _ ∷ _ ↦ false ]

  abbrev pub get_length : PriorityQueue A → ℕ
  get_length q = length q.queue

  unfoldable pub remove_node : PriorityQueue A → ℕ → Option (PriorityQueue A)
  remove_node q p =
      trim_segments p (next_of p q.queue) (prev_of p q.queue) q.segments >>= λ segments.
      some (record { queue = delete_link p q.queue; segments = segments })

  abbrev pub last_link : List (Node A) → Option ℕ
  last_link [] = none
  last_link (x ∷ []) = some x.link
  last_link (x ∷ y ∷ ys) = last_link (y ∷ ys)

  abbrev pub head_link : List (Node A) → Option ℕ
  head_link [] = none
  head_link (x ∷ xs) = some x.link

  -- What tracker_priority_queue_foreach_remove does to its segment `s`, the one at `i`, when it drops
  -- the link `p`, with the links kept before it and those to come. The index is the next round's.
  unfoldable pub drop_from_segment :
      List Segment → ℕ → Segment → ℕ → List (Node A) → List (Node A) → Option (List Segment × ℕ)
  drop_from_segment segments i s p kept rest =
      if nat_eq p s.first_elem && nat_eq p s.last_elem
      then some (remove_index segments i, i)
      else if nat_eq p s.first_elem
      then (head_link rest >>= λ l. some (set segments i (record s { first_elem = l }), i))
      else if nat_eq p s.last_elem
      then (last_link kept >>= λ l. some (set segments i (record s { last_elem = l }), i + 1))
      else some (segments, i)

  -- The loop, over the links to come. `kept` holds those that it has passed; the result's Boolean
  -- tells whether it dropped any.
  unfoldable pub foreach_remove_loop :
      (A → Bool)
      → List (Node A)
      → List (Node A)
      → List Segment
      → ℕ
      → Bool
      → Option (PriorityQueue A × Bool)
  foreach_remove_loop test kept [] segments i updated =
      some (record { queue = kept; segments = segments }, updated)
  foreach_remove_loop test kept (x ∷ xs) segments i updated = elim (get_elem? segments i) [
    | none ↦ none
    | some s ↦ elim (test x.elem) [
      | true ↦ drop_from_segment segments i s x.link kept xs >>= λ (segments', i').
          foreach_remove_loop test kept xs segments' i' true
      | false ↦
          foreach_remove_loop test (kept ++ x ∷ []) xs segments
            (if nat_eq x.link s.last_elem then i + 1 else i) updated
    ]
  ]

  unfoldable pub foreach_remove : PriorityQueue A → (A → Bool) → Option (PriorityQueue A × Bool)
  foreach_remove q test = foreach_remove_loop test [] q.queue q.segments 0 false

  -- tracker_priority_queue_find
  unfoldable pub find_loop : (A → Bool) → List (Node A) → List Segment → ℕ → Option (Option (ℤ × A))
  find_loop test [] segments i = some none
  find_loop test (x ∷ xs) segments i = elim (get_elem? segments i) [
    | none ↦ none
    | some s ↦ elim (test x.elem) [
      | true ↦ some (some (s.priority, x.elem))
      | false ↦ find_loop test xs segments (if nat_eq x.link s.last_elem then i + 1 else i)
    ]
  ]

  unfoldable pub find : PriorityQueue A → (A → Bool) → Option (Option (ℤ × A))
  find q test = find_loop test q.queue q.segments 0
