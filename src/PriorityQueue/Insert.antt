-- ===== src/PriorityQueue/Insert.antt =====
-- insert_node on the state for valid groups.

use mathlib.Core.Path.{subst₃}
use tracker_miners.Base.{
  ℕ, suc, ◌+◌, ◌≡◌, inl, inr, refl, ap, ◌∙◌, sym, some, List, [], ◌∷◌, ◌++◌, arith, nat_eq,
  nat_eq_iff, length, count-append,
}
use tracker_miners.Base.Int.{ℤ, ◌<ℤ◌, eq_of_parts}
use tracker_miners.PriorityQueue.{
  Node, Segment, Search, found, closest, no_segments, fault, search_segment, insert_at, insert_node,
}
use tracker_miners.PriorityQueue.Groups.{
  Group, segment_of, nodes, AllBelow, AllAbove, IsAscending, links, represent, IsValid,
  add_to_groups,
}
use tracker_miners.PriorityQueue.BinarySearch.{Finds, AboveFrom, search_segment-Finds}
use tracker_miners.PriorityQueue.Split.{
  Split-at, IsAscending-IsSorted, AllBelow-of_at, AllAbove-of_at, add-append, add-above,
}
use tracker_miners.PriorityQueue.Places.{
  ascending_before, single, grown, segs, insert_found, insert_left, insert_right,
}

module _ {A : Type 0} where
  links-add_to_groups :
      (l : ℕ) (p : ℤ) (n : Node A) (gs : List (Group A))
      → links l (nodes (add_to_groups p n gs)) ≡ links l (n ∷ nodes gs)
  unfolding add_to_groups
  links-add_to_groups l p n [] = refl
  links-add_to_groups l p n (g ∷ gs) = ground (
    arith,
    links-add_to_groups l p n gs,
    count-append (λ x. nat_eq x.link l) g.others (nodes gs),
    count-append (λ x. nat_eq x.link l) (g.others ++ n ∷ []) (nodes gs),
    count-append (λ x. nat_eq x.link l) g.others (n ∷ []),
    count-append (λ x. nat_eq x.link l) g.others (nodes (add_to_groups p n gs)),
  )

  AllAbove-add_to_groups :
      (q p : ℤ) (n : Node A) (gs : List (Group A))
      → q <ℤ p
      → AllAbove q gs
      → AllAbove q (add_to_groups p n gs)
  unfolding add_to_groups
  AllAbove-add_to_groups q p n [] h a = (h, tt)
  AllAbove-add_to_groups q p n (g ∷ gs) h a = ground (arith, AllAbove-add_to_groups q p n gs)

  AllAbove-mono : (q p : ℤ) (gs : List (Group A)) → q <ℤ p → AllAbove p gs → AllAbove q gs
  AllAbove-mono q p [] h a = tt
  AllAbove-mono q p (g ∷ gs) h a = (omega arith, AllAbove-mono q p gs h a.1)

  IsAscending-add_to_groups :
      (p : ℤ) (n : Node A) (gs : List (Group A))
      → IsAscending gs
      → IsAscending (add_to_groups p n gs)
  unfolding add_to_groups
  IsAscending-add_to_groups p n [] a = (tt, tt)
  IsAscending-add_to_groups p n (g ∷ gs) a = ground (
    arith,
    IsAscending-add_to_groups p n gs,
    AllAbove-add_to_groups g.priority p n gs,
    AllAbove-mono p g.priority gs,
    eq_of_parts g.priority p,
  )

  -- The groups stay valid with an element at a new address.
  pub add_to_groups-IsValid :
      (p : ℤ) (n : Node A) (gs : List (Group A))
      → links n.link (nodes gs) ≡ 0
      → IsValid gs
      → IsValid (add_to_groups p n gs)
  add_to_groups-IsValid p n gs fresh v = record {
    ascending = IsAscending-add_to_groups p n gs v.ascending;
    distinct = λ l. ground (arith, links-add_to_groups l p n gs, v.distinct l, nat_eq_iff n.link l);
  }

  AllBelow-mono : (q p : ℤ) (gs : List (Group A)) → q <ℤ p → AllBelow q gs → AllBelow p gs
  AllBelow-mono q p [] h a = tt
  AllBelow-mono q p (g ∷ gs) h a = (omega arith, AllBelow-mono q p gs h a.1)

  above_next :
      (p : ℤ) (before : List (Group A)) (g : Group A) (after : List (Group A))
      → AboveFrom (segs (before ++ g ∷ after)) p (length before + 1)
      → AllAbove p after
  above_next p [] g after h = AllAbove-of_at p [] after (λ j t l e. h (suc j) t (omega arith) e)
  above_next p (b ∷ bs) g after h = above_next p bs g after (λ j t l e. h (suc j) t (omega arith) e)

  -- What remains to be shown of an end of the search, for a split list of groups.
  abbrev Inserts : ℤ → Node A → (ℕ → Segment → Search) → List (Group A) → ℕ → Segment → Type 0
  Inserts p n end gs c s =
      Finds (segs gs) p (end c s)
      → IsValid gs
      → insert_at (represent gs) p n (end c s) ≡ some (represent (add_to_groups p n gs))

  module _ (before : List (Group A)) (g : Group A) (after : List (Group A)) (p : ℤ)
      (n : Node A) where
    add_found :
        IsAscending (before ++ g ∷ after)
        → g.priority ≡ p
        → add_to_groups p n (before ++ g ∷ after) ≡ before ++ grown g n ∷ after
    add_found a e =
        add-append p n before (g ∷ after) (rw (← e) (ascending_before before g after a))
        ∙ ap (◌++◌ before) here
      where
        here : add_to_groups p n (g ∷ after) ≡ grown g n ∷ after
        here = unfold add_to_groups in ground (arith, e)

    add_left :
        p <ℤ g.priority
        → AllBelow p before
        → add_to_groups p n (before ++ g ∷ after) ≡ before ++ single p n ∷ g ∷ after
    add_left lt low =
        add-append p n before (g ∷ after) low
        ∙ ap (◌++◌ before) (unfold add_to_groups in ground (arith, lt))

    add_right :
        g.priority <ℤ p
        → AllBelow p before
        → AllAbove p after
        → add_to_groups p n (before ++ g ∷ after) ≡ before ++ g ∷ single p n ∷ after
    add_right lt low high =
        add-append p n before (g ∷ after) low
        ∙ ap (◌++◌ before) (unfold add_to_groups in ground (arith, lt, add-above p n after high))

    found-Inserts : Inserts p n found (before ++ g ∷ after) (length before) (segment_of g)
    found-Inserts (at, e) v =
        insert_found before g after p n v
        ∙ ap (λ l. some (represent l)) (sym (add_found v.ascending e))

    closest-Inserts : Inserts p n closest (before ++ g ∷ after) (length before) (segment_of g)
    closest-Inserts (at, inl (lt, low)) v =
        insert_left before g after p n v lt
        ∙ ap (λ l. some (represent l)) (sym (add_left lt (AllBelow-of_at p before (g ∷ after) low)))
    closest-Inserts (at, inr (lt, high)) v =
        insert_right before g after p n v lt
        ∙ ap (λ l. some (represent l))
            (sym (
              add_right lt
                (AllBelow-mono g.priority p before lt (ascending_before before g after v.ascending))
                (above_next p before g after high)))

  insert_at-represent :
      (gs : List (Group A)) (p : ℤ) (n : Node A) (s : Search)
      → Finds (segs gs) p s
      → IsValid gs
      → insert_at (represent gs) p n s ≡ some (represent (add_to_groups p n gs))
  insert_at-represent gs p n (found c s) f v =
      let r = Split-at gs c s f.0 in
      subst₃ (Inserts p n found) (sym r.whole) r.index r.segment
        (found-Inserts r.before r.group r.after p n) f v
  insert_at-represent gs p n (closest c s) f v =
      let r = Split-at gs c s f.0 in
      subst₃ (Inserts p n closest) (sym r.whole) r.index r.segment
        (closest-Inserts r.before r.group r.after p n) f v
  insert_at-represent [] p n no_segments f v = unfold insert_at add_to_groups in refl
  insert_at-represent (g ∷ gs) p n no_segments f v = cc
  insert_at-represent gs p n fault f v = absurd f

  -- On the state for valid groups, insert_node runs without a fault into the state for the groups in
  -- which the new element stands last among those of its priority.
  pub insert_node-represent :
      (gs : List (Group A)) (p : ℤ) (n : Node A)
      → IsValid gs
      → insert_node (represent gs) p n ≡ some (represent (add_to_groups p n gs))
  unfolding insert_node
  insert_node-represent gs p n v =
      insert_at-represent gs p n (search_segment (segs gs) p)
        (search_segment-Finds (segs gs) p (IsAscending-IsSorted gs v.ascending)) v
