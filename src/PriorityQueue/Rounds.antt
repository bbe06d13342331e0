-- ===== src/PriorityQueue/Rounds.antt =====
-- The rounds of tracker_priority_queue_foreach_remove.
use tracker_miners.Base.{
  ℕ, ◌≡◌, refl, ap, Bool, true, false, some, List, [], ◌∷◌, ◌++◌, arith, nat_eq, length, get_elem?,
  set, append_assoc, length-append,
}
use tracker_miners.PriorityQueue.{Node, Segment, remove_index}
use tracker_miners.PriorityQueue.Groups.{last_from}
use tracker_miners.PriorityQueue.Removal.{
  last_link, head_link, drop_from_segment, foreach_remove_loop,
}

pub get_elem?-split :
    (xs ys : List Segment) (s : Segment) → get_elem? (xs ++ s ∷ ys) (length xs) ≡ some s
get_elem?-split [] ys s = refl
get_elem?-split (x ∷ xs) ys s = get_elem?-split xs ys s

set-split : (xs ys : List Segment) (s t : Segment) → set (xs ++ s ∷ ys) (length xs) t ≡ xs ++ t ∷ ys
set-split [] ys s t = refl
set-split (x ∷ xs) ys s t = ap (◌∷◌ x) (set-split xs ys s t)

remove_index-split :
    (xs ys : List Segment) (s : Segment) → remove_index (xs ++ s ∷ ys) (length xs) ≡ xs ++ ys
unfolding remove_index
remove_index-split [] ys s = refl
remove_index-split (x ∷ xs) ys s = ap (◌∷◌ x) (remove_index-split xs ys s)

module _ {A : Type 0} where
  pub last_link-append :
      (base : List (Node A)) (k : Node A) (ks : List (Node A))
      → last_link (base ++ k ∷ ks) ≡ some (last_from k ks).link
  last_link-append [] k [] = refl
  last_link-append [] k (l ∷ ks) = last_link-append [] l ks
  last_link-append (x ∷ []) k ks = last_link-append [] k ks
  last_link-append (x ∷ y ∷ ys) k ks = last_link-append (y ∷ ys) k ks

  pub last_from-append :
      (k : Node A) (ks : List (Node A)) (r : Node A) → last_from k (ks ++ r ∷ []) ≡ r
  last_from-append k [] r = refl
  last_from-append k (l ∷ ks) r = last_from-append l ks r

  -- The rounds of the loop, at the segment `s` behind `pre`.
  module _ (test : A → Bool) (x : Node A) (xs : List (Node A)) (pre post : List Segment)
      (s : Segment) (updated : Bool) where
    pub keep_inside :
        (before : List (Node A))
        → test x.elem ≡ false
        → nat_eq x.link s.last_elem ≡ false
        → foreach_remove_loop test before (x ∷ xs) (pre ++ s ∷ post) (length pre) updated
          ≡ foreach_remove_loop test (before ++ x ∷ []) xs (pre ++ s ∷ post) (length pre) updated
    unfolding foreach_remove_loop
    keep_inside before h k = ground (arith, h, k, get_elem?-split pre post s)

    pub keep_last :
        (before : List (Node A))
        → test x.elem ≡ false
        → nat_eq x.link s.last_elem ≡ true
        → foreach_remove_loop test before (x ∷ xs) (pre ++ s ∷ post) (length pre) updated
          ≡ foreach_remove_loop test
              (before ++ x ∷ [])
              xs
              ((pre ++ s ∷ []) ++ post)
              (length (pre ++ s ∷ []))
              updated
    unfolding foreach_remove_loop
    keep_last before h k = ground (
      arith,
      h,
      k,
      get_elem?-split pre post s,
      append_assoc pre (s ∷ []) post,
      length-append pre (s ∷ []),
    )

    pub drop_only :
        (before : List (Node A))
        → test x.elem ≡ true
        → nat_eq x.link s.first_elem ≡ true
        → nat_eq x.link s.last_elem ≡ true
        → foreach_remove_loop test before (x ∷ xs) (pre ++ s ∷ post) (length pre) updated
          ≡ foreach_remove_loop test before xs (pre ++ post) (length pre) true
    unfolding foreach_remove_loop drop_from_segment
    drop_only before h j k =
        ground (arith, h, j, k, get_elem?-split pre post s, remove_index-split pre post s)

    pub drop_first :
        (before : List (Node A)) (l : ℕ)
        → test x.elem ≡ true
        → nat_eq x.link s.first_elem ≡ true
        → nat_eq x.link s.last_elem ≡ false
        → head_link xs ≡ some l
        → foreach_remove_loop test before (x ∷ xs) (pre ++ s ∷ post) (length pre) updated
          ≡ foreach_remove_loop test before xs
              (pre ++ record s { first_elem = l } ∷ post)
              (length pre)
              true
    unfolding foreach_remove_loop drop_from_segment
    drop_first before l h j k e = ground (
      arith,
      h,
      j,
      k,
      e,
      get_elem?-split pre post s,
      set-split pre post s (record s { first_elem = l }),
    )

    pub drop_last :
        (before : List (Node A)) (l : ℕ)
        → test x.elem ≡ true
        → nat_eq x.link s.first_elem ≡ false
        → nat_eq x.link s.last_elem ≡ true
        → last_link before ≡ some l
        → foreach_remove_loop test before (x ∷ xs) (pre ++ s ∷ post) (length pre) updated
          ≡ foreach_remove_loop test before xs
              ((pre ++ record s { last_elem = l } ∷ []) ++ post)
              (length (pre ++ record s { last_elem = l } ∷ []))
              true
    unfolding foreach_remove_loop drop_from_segment
    drop_last before l h j k e = ground (
      arith,
      h,
      j,
      k,
      e,
      get_elem?-split pre post s,
      set-split pre post s (record s { last_elem = l }),
      append_assoc pre (record s { last_elem = l } ∷ []) post,
      length-append pre (record s { last_elem = l } ∷ []),
    )

    pub drop_inside :
        (before : List (Node A))
        → test x.elem ≡ true
        → nat_eq x.link s.first_elem ≡ false
        → nat_eq x.link s.last_elem ≡ false
        → foreach_remove_loop test before (x ∷ xs) (pre ++ s ∷ post) (length pre) updated
          ≡ foreach_remove_loop test before xs (pre ++ s ∷ post) (length pre) true
    unfolding foreach_remove_loop drop_from_segment
    drop_inside before h j k = ground (arith, h, j, k, get_elem?-split pre post s)
