-- ===== src/PriorityQueue/Groups.antt =====
-- What a priority queue stands for: for each priority in use, in ascending order, the elements that
-- were added with it, in the order of their addition.
use tracker_miners.Base.{ℕ, ◌≤◌, List, [], ◌∷◌, ◌++◌, map, nat_eq, if◌then◌else◌, count}
use tracker_miners.Base.Int.{ℤ, ◌<ℤ◌, ltb_ℤ, eq_ℤ}
use tracker_miners.PriorityQueue.{Node, Segment, PriorityQueue}

pub record Group (A : Type 0) : Type 0 where
  pub priority : ℤ
  pub first : Node A
  pub others : List (Node A)

module _ {A : Type 0} where
  abbrev pub members : Group A → List (Node A)
  members g = g.first ∷ g.others

  abbrev pub last_from : Node A → List (Node A) → Node A
  last_from x [] = x
  last_from x (y ∷ ys) = last_from y ys

  abbrev pub segment_of : Group A → Segment
  segment_of g = record {
    priority = g.priority;
    first_elem = g.first.link;
    last_elem = (last_from g.first g.others).link;
  }

  abbrev pub nodes : List (Group A) → List (Node A)
  nodes [] = []
  nodes (g ∷ gs) = members g ++ nodes gs

  abbrev pub AllBelow : ℤ → List (Group A) → Type 0
  AllBelow p [] = Unit {0}
  AllBelow p (g ∷ gs) = (g.priority <ℤ p) × AllBelow p gs

  abbrev pub AllAbove : ℤ → List (Group A) → Type 0
  AllAbove p [] = Unit {0}
  AllAbove p (g ∷ gs) = (p <ℤ g.priority) × AllAbove p gs

  abbrev pub IsAscending : List (Group A) → Type 0
  IsAscending [] = Unit {0}
  IsAscending (g ∷ gs) = AllAbove g.priority gs × IsAscending gs

  -- how many links stand at an address
  abbrev pub links : ℕ → List (Node A) → ℕ
  links p = count (λ x. nat_eq x.link p)

  -- The state of the code for the groups.
  abbrev pub represent : List (Group A) → PriorityQueue A
  represent gs = record { queue = nodes gs; segments = map segment_of gs }

  -- The priorities ascend, and no two links are at one address.
  pub record IsValid (gs : List (Group A)) : Type 0 where
    pub ascending : IsAscending gs
    pub distinct : (p : ℕ) → links p (nodes gs) ≤ 1

  -- A new element goes behind those of its priority.
  unfoldable pub add_to_groups : ℤ → Node A → List (Group A) → List (Group A)
  add_to_groups p n [] = record { priority = p; first = n; others = [] } ∷ []
  add_to_groups p n (g ∷ gs) =
      let rest = add_to_groups p n gs in
      if ltb_ℤ p g.priority
      then record { priority = p; first = n; others = [] } ∷ g ∷ gs
      else if eq_ℤ g.priority p
      then record g { others = g.others ++ n ∷ [] } ∷ gs
      else g ∷ rest
