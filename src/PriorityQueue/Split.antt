-- ===== src/PriorityQueue/Split.antt =====
-- Groups, split at the one that a search has found.

use tracker_miners.Base.{
  ℕ, zero, suc, ◌≡◌, refl, ap, ◌∙◌, sym, some, List, [], ◌∷◌, ◌++◌, map, arith, length, get_elem?,
  set, append_assoc,
}
use tracker_miners.Base.Int.{ℤ, ◌<ℤ◌}
use tracker_miners.PriorityQueue.{Node, Segment, insert_val}
use tracker_miners.PriorityQueue.Groups.{
  Group, members, segment_of, nodes, AllBelow, AllAbove, IsAscending, add_to_groups,
}
use tracker_miners.PriorityQueue.BinarySearch.{BelowAt, AboveFrom, IsSorted}

pub set-append :
    {A : Type 0} (xs ys : List A) (y v : A) → set (xs ++ y ∷ ys) (length xs) v ≡ xs ++ v ∷ ys
set-append [] ys y v = refl
set-append (x ∷ xs) ys y v = ap (◌∷◌ x) (set-append xs ys y v)

pub insert_val-append :
    (xs ys : List Segment) (v : Segment) → insert_val (xs ++ ys) (length xs) v ≡ xs ++ v ∷ ys
unfolding insert_val
insert_val-append [] [] v = refl
insert_val-append [] (y ∷ ys) v = refl
insert_val-append (x ∷ xs) ys v = ap (◌∷◌ x) (insert_val-append xs ys v)

module _ {A : Type 0} where
  pub length-map_segments : (gs : List (Group A)) → length (map segment_of gs) ≡ length gs
  length-map_segments [] = refl
  length-map_segments (g ∷ gs) = ap suc (length-map_segments gs)

  pub nodes-append : (gs hs : List (Group A)) → nodes (gs ++ hs) ≡ nodes gs ++ nodes hs
  nodes-append [] hs = refl
  nodes-append (g ∷ gs) hs =
      ap (◌++◌ (members g)) (nodes-append gs hs)
      ∙ sym (append_assoc (members g) (nodes gs) (nodes hs))

  -- The group of a segment, between those before and those after it.
  pub record Split (gs : List (Group A)) (c : ℕ) (s : Segment) : Type 0 where
    pub before : List (Group A)
    pub group : Group A
    pub after : List (Group A)
    pub whole : gs ≡ before ++ group ∷ after
    pub index : length before ≡ c
    pub segment : segment_of group ≡ s

  pub Split-at :
      (gs : List (Group A)) (c : ℕ) (s : Segment)
      → get_elem? (map segment_of gs) c ≡ some s
      → Split gs c s
  Split-at [] c s h = cc
  Split-at (g ∷ gs) zero s h = record {
    before = [];
    group = g;
    after = gs;
    whole = refl;
    index = refl;
    segment = ground arith;
  }
  Split-at (g ∷ gs) (suc c) s h =
      let r = Split-at gs c s h in
      record {
        before = g ∷ r.before;
        group = r.group;
        after = r.after;
        whole = ap (◌∷◌ g) r.whole;
        index = ap suc r.index;
        segment = r.segment;
      }

  pub AllAbove-get :
      (p : ℤ) (gs : List (Group A)) (j : ℕ) (t : Segment)
      → AllAbove p gs
      → get_elem? (map segment_of gs) j ≡ some t
      → p <ℤ t.priority
  AllAbove-get p [] j t a h = cc
  AllAbove-get p (g ∷ gs) zero t a h = let e : segment_of g ≡ t = ground arith in rw (← e) a.0
  AllAbove-get p (g ∷ gs) (suc j) t a h = AllAbove-get p gs j t a.1 h

  pub IsAscending-IsSorted : (gs : List (Group A)) → IsAscending gs → IsSorted (map segment_of gs)
  IsAscending-IsSorted [] a i j s t h e f = cc
  IsAscending-IsSorted (g ∷ gs) a zero (suc j) s t h e f =
      let q : segment_of g ≡ s = ground arith in rw (← q) (AllAbove-get g.priority gs j t a.0 f)
  IsAscending-IsSorted (g ∷ gs) a zero zero s t h e f = absurd (omega arith)
  IsAscending-IsSorted (g ∷ gs) a (suc i) zero s t h e f = absurd (omega arith)
  IsAscending-IsSorted (g ∷ gs) a (suc i) (suc j) s t h e f =
      IsAscending-IsSorted gs a.1 i j s t (omega arith) e f

  pub AllBelow-of_at :
      (p : ℤ) (gs hs : List (Group A))
      → BelowAt (map segment_of (gs ++ hs)) p (length gs)
      → AllBelow p gs
  AllBelow-of_at p [] hs h = tt
  AllBelow-of_at p (g ∷ gs) hs h = (
    h 0 (segment_of g) (omega arith) refl,
    AllBelow-of_at p gs hs (λ j t l e. h (suc j) t (omega arith) e),
  )

  pub AllAbove-of_at :
      (p : ℤ) (gs hs : List (Group A))
      → AboveFrom (map segment_of (gs ++ hs)) p (length gs)
      → AllAbove p hs
  AllAbove-of_at p [] [] h = tt
  AllAbove-of_at p [] (g ∷ hs) h = (
    h 0 (segment_of g) (omega arith) refl,
    AllAbove-of_at p [] hs (λ j t l e. h (suc j) t (omega arith) e),
  )
  AllAbove-of_at p (g ∷ gs) hs h = AllAbove-of_at p gs hs (λ j t l e. h (suc j) t (omega arith) e)

  -- adding passes over the groups below the priority
  pub add-append :
      (p : ℤ) (n : Node A) (gs hs : List (Group A))
      → AllBelow p gs
      → add_to_groups p n (gs ++ hs) ≡ gs ++ add_to_groups p n hs
  unfolding add_to_groups
  add-append p n [] hs a = refl
  add-append p n (g ∷ gs) hs a = ground (arith, add-append p n gs hs)

  pub add-above :
      (p : ℤ) (n : Node A) (hs : List (Group A))
      → AllAbove p hs
      → add_to_groups p n hs ≡ record { priority = p; first = n; others = [] } ∷ hs
  unfolding add_to_groups
  add-above p n [] a = refl
  add-above p n (h ∷ hs) a = ground arith
