-- ===== src/PriorityQueue/Finding.antt =====
-- tracker_priority_queue_find on the state for valid groups.
use tracker_miners.Base.{
  ℕ, ◌≡◌, refl, Bool, Option, none, some, List, [], ◌∷◌, ◌++◌, map, arith, nat_eq, nat_eq_refl,
  if◌then◌else◌, length, count-append, append_assoc, length-append,
}
use tracker_miners.Base.Int.{ℤ}
use tracker_miners.PriorityQueue.{Node, Segment}
use tracker_miners.PriorityQueue.Groups.{
  Group, members, last_from, segment_of, nodes, represent, IsValid,
}
use tracker_miners.PriorityQueue.Rounds.{get_elem?-split}
use tracker_miners.PriorityQueue.ForeachRemove.{Distinct, first_not_last}
use tracker_miners.PriorityQueue.Removal.{find_loop, find}

module _ {A : Type 0} (test : A → Bool) where
  abbrev pub first_passing : List (Node A) → Option A
  first_passing [] = none
  first_passing (x ∷ xs) = if test x.elem then some x.elem else first_passing xs

  -- the first element in the groups that passes, with the priority of its group
  abbrev pub find_in_groups : List (Group A) → Option (ℤ × A)
  find_in_groups [] = none
  find_in_groups (g ∷ gs) = elim (first_passing (members g)) [
    | some x ↦ some (g.priority, x)
    | none ↦ find_in_groups gs
  ]

  abbrev Found : List (Group A) → Type 0
  Found gs =
      (pre : List Segment)
      → find_loop test (nodes gs) (pre ++ map segment_of gs) (length pre) ≡ some (find_in_groups gs)

  Found-group :
      (gs : List (Group A)) (p : ℤ) (f : ℕ)
      → Found gs
      → (r : Node A) (rs : List (Node A)) (pre : List Segment) → Distinct (r ∷ rs)
      → find_loop test
          (r ∷ (rs ++ nodes gs))
          (pre
            ++ record { priority = p; first_elem = f; last_elem = (last_from r rs).link }
              ∷ map segment_of gs)
          (length pre)
        ≡ some (elim (first_passing (r ∷ rs)) [ some x ↦ some (p, x) | none ↦ find_in_groups gs ])
  unfolding find_loop
  Found-group gs p f next r [] pre h =
      let s : Segment = record { priority = p; first_elem = f; last_elem = r.link } in
      ground (
        arith,
        get_elem?-split pre (map segment_of gs) s,
        nat_eq_refl r.link,
        next (pre ++ s ∷ []),
        append_assoc pre (s ∷ []) (map segment_of gs),
        length-append pre (s ∷ []),
      )
  Found-group gs p f next r (y ∷ ys) pre h =
      let s : Segment = record {
        priority = p;
        first_elem = f;
        last_elem = (last_from y ys).link;
      } in
      ground (
        arith,
        get_elem?-split pre (map segment_of gs) s,
        first_not_last r y ys h,
        Found-group gs p f next y ys pre (λ l. omega (arith, h l)),
      )

  Found-groups : (gs : List (Group A)) → Distinct (nodes gs) → Found gs
  unfolding find_loop
  Found-groups [] h pre = refl
  Found-groups (g ∷ gs) h pre =
      Found-group gs g.priority g.first.link
        (Found-groups gs
          (λ l. omega (arith, h l, count-append (λ n. nat_eq n.link l) (members g) (nodes gs))))
        g.first g.others pre
        (λ l. omega (arith, h l, count-append (λ n. nat_eq n.link l) (members g) (nodes gs)))

  -- On the state for valid groups, find runs without a fault and gives the first element of the queue
  -- that passes the test, with the priority of its group, or nothing if none passes.
  pub find-represent :
      (gs : List (Group A)) → IsValid gs → find (represent gs) test ≡ some (find_in_groups gs)
  unfolding find
  find-represent gs v = Found-groups gs v.distinct []
