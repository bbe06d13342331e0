-- ===== src/PriorityQueue/Pop.antt =====
-- tracker_priority_queue_pop_node on the state for valid groups.
use tracker_miners.Base.{
  ℕ, ◌≤◌, ◌≡◌, refl, false, Option, none, some, List, [], ◌∷◌, arith, nat_eq, nat_eq_iff,
  nat_eq_refl, count-append,
}
use tracker_miners.Base.Int.{ℤ}
use tracker_miners.PriorityQueue.{Node, next_of}
use tracker_miners.PriorityQueue.Groups.{Group, last_from, nodes, links, represent, IsValid}
use tracker_miners.PriorityQueue.Removal.{pop_node}

module _ {A : Type 0} where
  -- the groups without their first element
  abbrev pub shorten : ℤ → List (Node A) → List (Group A) → List (Group A)
  shorten p [] gs = gs
  shorten p (y ∷ ys) gs = record { priority = p; first = y; others = ys } ∷ gs

  abbrev pub pop_group : List (Group A) → Option (ℤ × Node A) × List (Group A)
  pop_group [] = (none, [])
  pop_group (g ∷ gs) = (some (g.priority, g.first), shorten g.priority g.others gs)

  last_counts : (x : Node A) (ys : List (Node A)) → 1 ≤ links (last_from x ys).link (x ∷ ys)
  last_counts x [] = ground (arith, nat_eq_iff x.link x.link)
  last_counts x (y ∷ ys) = omega (arith, last_counts y ys)

  -- with more than one element, the last is not at the address of the first
  pub last-ne-first :
      (x y : Node A) (ys : List (Node A))
      → ((p : ℕ) → links p (x ∷ y ∷ ys) ≤ 1)
      → nat_eq (last_from y ys).link x.link ≡ false
  last-ne-first x y ys h =
      ground
        (arith, h (last_from y ys).link, last_counts y ys, nat_eq_iff x.link (last_from y ys).link)

  members_distinct :
      (p : ℤ) (x : Node A) (ys : List (Node A)) (gs : List (Group A))
      → IsValid (record { priority = p; first = x; others = ys } ∷ gs)
      → (l : ℕ) → links l (x ∷ ys) ≤ 1
  members_distinct p x ys gs v l =
      omega (arith, v.distinct l, count-append (λ n. nat_eq n.link l) (x ∷ ys) (nodes gs))

  shorten-IsValid :
      (p : ℤ) (x : Node A) (ys : List (Node A)) (gs : List (Group A))
      → IsValid (record { priority = p; first = x; others = ys } ∷ gs)
      → IsValid (shorten p ys gs)
  shorten-IsValid p x [] gs v = record {
    ascending = v.ascending.1;
    distinct = λ l. omega (arith, v.distinct l);
  }
  shorten-IsValid p x (y ∷ ys) gs v = record {
    ascending = v.ascending;
    distinct = λ l. omega (arith, v.distinct l);
  }

  pub pop_group-IsValid : (gs : List (Group A)) → IsValid gs → IsValid (pop_group gs).1
  pop_group-IsValid [] v = v
  pop_group-IsValid (g ∷ gs) v = shorten-IsValid g.priority g.first g.others gs v

  pop_first :
      (p : ℤ) (x : Node A) (ys : List (Node A)) (gs : List (Group A))
      → IsValid (record { priority = p; first = x; others = ys } ∷ gs)
      → pop_node (represent (record { priority = p; first = x; others = ys } ∷ gs))
        ≡ some (some (p, x), represent (shorten p ys gs))
  unfolding pop_node next_of
  pop_first p x [] gs v = ground arith
  pop_first p x (y ∷ ys) gs v =
      ground (arith, last-ne-first x y ys (members_distinct p x (y ∷ ys) gs v), nat_eq_refl x.link)

  -- On the state for valid groups, pop_node runs without a fault: it hands out the first element of the
  -- lowest priority with that priority, or nothing if there are no groups, and leaves the state for the
  -- groups without that element.
  pub pop_node-represent :
      (gs : List (Group A))
      → IsValid gs
      → pop_node (represent gs) ≡ some ((pop_group gs).0, represent (pop_group gs).1)
  pop_node-represent [] v = unfold pop_node in refl
  pop_node-represent (g ∷ gs) v = pop_first g.priority g.first g.others gs v
