-- ===== src/PriorityQueue/Places.antt =====
-- What insert_node does at the place that its search has found.

use tracker_miners.Base.{
  ℕ, ◌+◌, ◌≤◌, ◌≡◌, refl, ap, ◌∙◌, sym, some, List, [], ◌∷◌, ◌++◌, map, arith, nat_eq, nat_eq_iff,
  length, set, count-append, length-append, append_assoc, map-append,
}
use tracker_miners.Base.Int.{ℤ, ◌<ℤ◌, lt→ltb_ℤ, lt→not_ltb_ℤ}
use tracker_miners.PriorityQueue.{
  Node, Segment, PriorityQueue, found, closest, insert_val, insert_at, queue_insert_before_link,
  queue_insert_after_link,
}
use tracker_miners.PriorityQueue.Groups.{
  Group, members, last_from, segment_of, nodes, AllBelow, AllAbove, IsAscending, links, represent,
  IsValid,
}
use tracker_miners.PriorityQueue.Links.{insert_before-split, insert_after-split}
use tracker_miners.PriorityQueue.Split.{
  set-append, insert_val-append, nodes-append, length-map_segments,
}

module _ {A : Type 0} where
  above_append :
      (p : ℤ) (gs : List (Group A)) (h : Group A) (hs : List (Group A))
      → AllAbove p (gs ++ h ∷ hs)
      → p <ℤ h.priority
  above_append p [] h hs a = a.0
  above_append p (g ∷ gs) h hs a = above_append p gs h hs a.1

  -- of ascending groups, those before one lie below it, and those after it above it
  pub ascending_before :
      (gs : List (Group A)) (h : Group A) (hs : List (Group A))
      → IsAscending (gs ++ h ∷ hs)
      → AllBelow h.priority gs
  ascending_before [] h hs a = tt
  ascending_before (g ∷ gs) h hs a =
      (above_append g.priority gs h hs a.0, ascending_before gs h hs a.1)

  -- the last of a group's members, and those before it
  init_from : Node A → List (Node A) → List (Node A)
  init_from x [] = []
  init_from x (y ∷ ys) = x ∷ init_from y ys

  init-last : (x : Node A) (ys : List (Node A)) → x ∷ ys ≡ init_from x ys ++ last_from x ys ∷ []
  unfolding init_from
  init-last x [] = refl
  init-last x (y ∷ ys) = ap (◌∷◌ x) (init-last y ys)

  module _ (before : List (Group A)) (g : Group A) (after : List (Group A)) (n : Node A)
      (distinct : (p : ℕ) → links p (nodes (before ++ g ∷ after)) ≤ 1) where
    members-last :
        (l : List (Node A))
        → members g ++ l ≡ init_from g.first g.others ++ last_from g.first g.others ∷ l
    members-last l =
        ap (λ (m : List (Node A)). m ++ l) (init-last g.first g.others)
        ∙ (append_assoc (init_from g.first g.others) (last_from g.first g.others ∷ []) l)

    around_last :
        (l : List (Node A))
        → nodes before ++ (members g ++ l)
          ≡ (nodes before ++ init_from g.first g.others) ++ last_from g.first g.others ∷ l
    around_last l =
        ap (◌++◌ (nodes before)) (members-last l) ∙ sym (append_assoc (nodes before) _ _)

    -- an insertion behind the last member of a group
    after_group :
        queue_insert_after_link (nodes (before ++ g ∷ after)) (last_from g.first g.others).link n
        ≡ some (nodes before ++ (members g ++ n ∷ nodes after))
    after_group =
        let whole = nodes-append before (g ∷ after) ∙ around_last (nodes after) in
        rw (around_last (n ∷ nodes after), whole)
          (insert_after-split (nodes before ++ init_from g.first g.others)
            (last_from g.first g.others) (nodes after) n (λ p. rw (← whole) (distinct p)))

    -- an insertion before the first
    before_group :
        queue_insert_before_link (nodes (before ++ g ∷ after)) g.first.link n
        ≡ some (nodes before ++ n ∷ (members g ++ nodes after))
    before_group = rw (nodes-append before (g ∷ after)) (
        insert_before-split (nodes before) g.first (g.others ++ nodes after) n
          (first_only g.first.link refl))
      where
        first_only : (p : ℕ) → g.first.link ≡ p → links p (nodes before) ≡ 0
        first_only p e = ground (
          arith,
          distinct p,
          ap (links p) (nodes-append before (g ∷ after)),
          count-append (λ x. nat_eq x.link p) (nodes before) (g.first ∷ (g.others ++ nodes after)),
          nat_eq_iff g.first.link p,
        )

  abbrev pub single : ℤ → Node A → Group A
  single p n = record { priority = p; first = n; others = [] }

  abbrev pub grown : Group A → Node A → Group A
  grown g n = record g { others = g.others ++ n ∷ [] }

  last_from-grown : (x : Node A) (ys : List (Node A)) (n : Node A) → last_from x (ys ++ n ∷ []) ≡ n
  last_from-grown x [] n = refl
  last_from-grown x (y ∷ ys) n = last_from-grown y ys n

  queue_path :
      {q r : List (Node A)} {s t : List Segment}
      → q ≡ r
      → s ≡ t
      → ◌≡◌ {A = PriorityQueue A}
          (record { queue = q; segments = s })
          (record { queue = r; segments = t })
  queue_path e f = λ i. record { queue = e i; segments = f i }

  abbrev pub segs : List (Group A) → List Segment
  segs = map segment_of

  module _ (before : List (Group A)) (g : Group A) (after : List (Group A)) where
    set-segs :
        (v : Segment)
        → set (segs (before ++ g ∷ after)) (length before) v ≡ segs before ++ v ∷ segs after
    set-segs v =
        rw (map-append, ← length-map_segments before)
          (set-append (segs before) (segs after) (segment_of g) v)

    insert_before_segs :
        (v : Segment)
        → insert_val (segs (before ++ g ∷ after)) (length before) v
          ≡ segs before ++ v ∷ segment_of g ∷ segs after
    insert_before_segs v =
        rw (map-append, ← length-map_segments before)
          (insert_val-append (segs before) (segment_of g ∷ segs after) v)

    insert_after_segs :
        (v : Segment)
        → insert_val (segs (before ++ g ∷ after)) (length before + 1) v
          ≡ segs before ++ segment_of g ∷ v ∷ segs after
    insert_after_segs v =
        ap (λ k. insert_val (segs (before ++ g ∷ after)) k v) one_more
        ∙ ap (λ l. insert_val l (length (segs before ++ segment_of g ∷ [])) v) regrouped
        ∙ insert_val-append (segs before ++ segment_of g ∷ []) (segs after) v
        ∙ append_assoc (segs before) (segment_of g ∷ []) (v ∷ segs after)
      where
        one_more : length before + 1 ≡ length (segs before ++ segment_of g ∷ [])
        one_more =
            omega
              (arith, length-append (segs before) (segment_of g ∷ []), length-map_segments before)

        regrouped : segs (before ++ g ∷ after) ≡ (segs before ++ segment_of g ∷ []) ++ segs after
        regrouped =
            map-append segment_of before (g ∷ after)
            ∙ sym (append_assoc (segs before) (segment_of g ∷ []) (segs after))

  module _ (before : List (Group A)) (g : Group A) (after : List (Group A)) (p : ℤ) (n : Node A)
      (valid : IsValid (before ++ g ∷ after)) where
    pub insert_found :
        insert_at (represent (before ++ g ∷ after)) p n (found (length before) (segment_of g))
        ≡ some (represent (before ++ grown g n ∷ after))
    unfolding insert_at
    insert_found = rw (after_group before g after n valid.distinct) (
        ap some (
          queue_path (sym grown_nodes) (
            set-segs before g after _
            ∙ ap (λ l. segs before ++ record (segment_of g) { last_elem = l } ∷ segs after)
                (ap (λ (m : Node A). m.link) (sym (last_from-grown g.first g.others n)))
            ∙ sym (map-append segment_of before (grown g n ∷ after)))))
      where
        grown_nodes :
            nodes (before ++ grown g n ∷ after) ≡ nodes before ++ (members g ++ n ∷ nodes after)
        grown_nodes =
            nodes-append before (grown g n ∷ after)
            ∙ ap (λ l. nodes before ++ g.first ∷ l) (append_assoc g.others (n ∷ []) (nodes after))

    pub insert_left :
        p <ℤ g.priority
        → insert_at (represent (before ++ g ∷ after)) p n (closest (length before) (segment_of g))
          ≡ some (represent (before ++ single p n ∷ g ∷ after))
    unfolding insert_at
    insert_left lt =
        rw (lt→ltb_ℤ p g.priority lt, before_group before g after n valid.distinct)
          (ap some (
            queue_path (sym (nodes-append before (single p n ∷ g ∷ after))) (
              insert_before_segs before g after _
              ∙ sym (map-append segment_of before (single p n ∷ g ∷ after)))))

    pub insert_right :
        g.priority <ℤ p
        → insert_at (represent (before ++ g ∷ after)) p n (closest (length before) (segment_of g))
          ≡ some (represent (before ++ g ∷ single p n ∷ after))
    unfolding insert_at
    insert_right lt =
        rw (lt→not_ltb_ℤ g.priority p lt, after_group before g after n valid.distinct)
          (ap some (
            queue_path (sym (nodes-append before (g ∷ single p n ∷ after))) (
              insert_after_segs before g after _
              ∙ sym (map-append segment_of before (g ∷ single p n ∷ after)))))
