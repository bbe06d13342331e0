-- ===== src/PriorityQueue/RemoveValid.antt =====
-- The groups after removals: their order, and their addresses.
use tracker_miners.Base.{
  ℕ, ◌≤◌, ◌≡◌, subst, Bool, List, [], ◌∷◌, arith, nat_eq, ◌+◌, filter, count-append,
}
use tracker_miners.Base.Int.{ℤ, ◌<ℤ◌}
use tracker_miners.PriorityQueue.{Node, delete_link}
use tracker_miners.PriorityQueue.Groups.{
  Group, members, nodes, links, IsValid, AllAbove, IsAscending,
}
use tracker_miners.PriorityQueue.Pop.{shorten}
use tracker_miners.PriorityQueue.ForeachRemove.{kept, remove_passing}
use tracker_miners.PriorityQueue.Neighbours.{remove_from_groups, delete_link-nodes}

module _ {A : Type 0} where
  links-delete_link : (l p : ℕ) (xs : List (Node A)) → links l (delete_link p xs) ≤ links l xs
  unfolding delete_link
  links-delete_link l p [] = omega arith
  links-delete_link l p (x ∷ xs) = ground (arith, links-delete_link l p xs)

  AllAbove-shorten :
      (q r : ℤ) (ys : List (Node A)) (gs : List (Group A))
      → q <ℤ r
      → AllAbove q gs
      → AllAbove q (shorten r ys gs)
  AllAbove-shorten q r [] gs h k = k
  AllAbove-shorten q r (y ∷ ys) gs h k = (h, k)

  IsAscending-shorten :
      (r : ℤ) (ys : List (Node A)) (gs : List (Group A))
      → AllAbove r gs
      → IsAscending gs
      → IsAscending (shorten r ys gs)
  IsAscending-shorten r [] gs h k = k
  IsAscending-shorten r (y ∷ ys) gs h k = (h, k)

  AllAbove-remove :
      (q : ℤ) (p : ℕ) (gs : List (Group A)) → AllAbove q gs → AllAbove q (remove_from_groups p gs)
  unfolding remove_from_groups
  AllAbove-remove q p [] h = h
  AllAbove-remove q p (g ∷ gs) h =
      ground (arith, h, AllAbove-shorten q g.priority g.others gs, AllAbove-remove q p gs)

  IsAscending-remove :
      (p : ℕ) (gs : List (Group A)) → IsAscending gs → IsAscending (remove_from_groups p gs)
  unfolding remove_from_groups
  IsAscending-remove p [] h = h
  IsAscending-remove p (g ∷ gs) h = ground (
    arith,
    h,
    IsAscending-shorten g.priority g.others gs,
    AllAbove-remove g.priority p gs,
    IsAscending-remove p gs,
  )

  pub remove_from_groups-IsValid :
      (gs : List (Group A)) (p : ℕ) → IsValid gs → IsValid (remove_from_groups p gs)
  remove_from_groups-IsValid gs p v = record {
    ascending = IsAscending-remove p gs v.ascending;
    distinct = λ l. at_most l;
  }
    where
      at_most : (l : ℕ) → links l (nodes (remove_from_groups p gs)) ≤ 1
      at_most l =
          subst (λ xs. links l xs ≤ 1) (delete_link-nodes p gs)
            (omega (arith, links-delete_link l p (nodes gs), v.distinct l))

  module _ (test : A → Bool) where
    links-filter : (l : ℕ) (xs : List (Node A)) → links l (filter (kept test) xs) ≤ links l xs
    links-filter l [] = omega arith
    links-filter l (x ∷ xs) = ground (arith, links-filter l xs)

    links-shorten :
        (l : ℕ) (q : ℤ) (ys : List (Node A)) (gs : List (Group A))
        → links l (nodes (shorten q ys gs)) ≡ links l ys + links l (nodes gs)
    links-shorten l q [] gs = omega arith
    links-shorten l q (y ∷ ys) gs = count-append (λ n. nat_eq n.link l) (y ∷ ys) (nodes gs)

    links-remove_passing :
        (l : ℕ) (gs : List (Group A))
        → links l (nodes (remove_passing test gs)) ≤ links l (nodes gs)
    unfolding remove_passing
    links-remove_passing l [] = omega arith
    links-remove_passing l (g ∷ gs) = omega (
      arith,
      links-shorten l g.priority (filter (kept test) (members g)) (remove_passing test gs),
      links-filter l (members g),
      links-remove_passing l gs,
      count-append (λ n. nat_eq n.link l) (members g) (nodes gs),
    )

    AllAbove-remove_passing :
        (q : ℤ) (gs : List (Group A)) → AllAbove q gs → AllAbove q (remove_passing test gs)
    unfolding remove_passing
    AllAbove-remove_passing q [] h = h
    AllAbove-remove_passing q (g ∷ gs) (h, hs) =
        AllAbove-shorten q g.priority (filter (kept test) (members g)) (remove_passing test gs) h
          (AllAbove-remove_passing q gs hs)

    IsAscending-remove_passing :
        (gs : List (Group A)) → IsAscending gs → IsAscending (remove_passing test gs)
    unfolding remove_passing
    IsAscending-remove_passing [] h = h
    IsAscending-remove_passing (g ∷ gs) (h, hs) =
        IsAscending-shorten g.priority (filter (kept test) (members g)) (remove_passing test gs)
          (AllAbove-remove_passing g.priority gs h) (IsAscending-remove_passing gs hs)

    pub remove_passing-IsValid :
        (gs : List (Group A)) → IsValid gs → IsValid (remove_passing test gs)
    remove_passing-IsValid gs v = record {
      ascending = IsAscending-remove_passing gs v.ascending;
      distinct = λ l. omega (arith, links-remove_passing l gs, v.distinct l);
    }
