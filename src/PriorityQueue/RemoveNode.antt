-- ===== src/PriorityQueue/RemoveNode.antt =====
-- Removing one link: the code on the state for valid groups, against the removal from the groups.
use tracker_miners.Base.{
  ℕ, ◌+◌, ◌≤◌, ◌≡◌, refl, ◌∙◌, inl, inr, true, false, Option, some, List, [], ◌∷◌, ◌++◌, map, arith,
  nat_eq, nat_eq_iff, count-append, Bool-cases,
}
use tracker_miners.Base.Int.{ℤ}
use tracker_miners.PriorityQueue.{Node, Segment, is_head, next_of, prev_of, delete_link}
use tracker_miners.PriorityQueue.Groups.{
  Group, members, last_from, segment_of, nodes, links, represent, IsValid,
}
use tracker_miners.PriorityQueue.Pop.{shorten, last-ne-first}
use tracker_miners.PriorityQueue.Removal.{trim_segments, remove_node}
use tracker_miners.PriorityQueue.Neighbours.{
  remove_from_groups, has_link, has_link-links, not_has_link-links, delete_link-nodes, last_absent,
  last_from-delete_link, next_of-append, prev_of-append, prev_of-last,
}

module _ {A : Type 0} where
  -- The loop leaves the segments of groups that do not hold the link.
  trim_absent :
      (p : ℕ) (next prev : Option ℕ) (gs : List (Group A))
      → links p (nodes gs) ≡ 0
      → trim_segments p next prev (map segment_of gs) ≡ some (map segment_of gs)
  unfolding trim_segments
  trim_absent p next prev [] h = refl
  trim_absent p next prev (g ∷ gs) h =
      let split = count-append (λ x. nat_eq x.link p) (members g) (nodes gs) in
      ground (arith, split, last_absent p g.first g.others, trim_absent p next prev gs)

  record Trims (p : ℕ) (next prev : Option ℕ) (gs : List (Group A)) : Type 0 where
    distinct : (l : ℕ) → links l (nodes gs) ≤ 1
    present : 1 ≤ links p (nodes gs)
    next_is : next ≡ next_of p (nodes gs)
    prev_is : is_head p (nodes gs) ≡ false → prev ≡ prev_of p (nodes gs)

  links-members :
      {p : ℕ} {next prev : Option ℕ} (g : Group A) (gs : List (Group A))
      → Trims p next prev (g ∷ gs)
      → (l : ℕ) → links l (members g) + links l (nodes gs) ≤ 1
  links-members g gs t l =
      omega (arith, t.distinct l, count-append (λ x. nat_eq x.link l) (members g) (nodes gs))

  Trims-tail :
      (p : ℕ) (next prev : Option ℕ) (g : Group A) (gs : List (Group A))
      → links p (members g) ≡ 0
      → Trims p next prev (g ∷ gs)
      → Trims p next prev gs
  Trims-tail p next prev g [] h t =
      absurd (omega (arith, t.present, count-append (λ x. nat_eq x.link p) (members g) []))
  Trims-tail p next prev g (k ∷ ks) h t = record {
    distinct = λ l. omega (arith, links-members g (k ∷ ks) t l);
    present =
        omega (arith, t.present, count-append (λ x. nat_eq x.link p) (members g) (nodes (k ∷ ks)));
    next_is = t.next_is ∙ next_of-append p (members g) k.first (k.others ++ nodes ks) h;
    prev_is = λ e.
        t.prev_is (ground (arith, h))
        ∙ prev_of-append p (members g) k.first (k.others ++ nodes ks) h e;
  }

  trim_first :
      (p : ℕ) (next prev : Option ℕ) (q : ℤ) (x : Node A) (ys : List (Node A)) (gs : List (Group A))
      → nat_eq x.link p ≡ true
      → Trims p next prev (record { priority = q; first = x; others = ys } ∷ gs)
      → trim_segments p next prev
          (map segment_of (record { priority = q; first = x; others = ys } ∷ gs))
        ≡ some (map segment_of (shorten q ys gs))
  unfolding trim_segments next_of
  trim_first p next prev q x [] gs e t = ground (arith, e)
  trim_first p next prev q x (y ∷ ys) gs e t = ground (
    arith,
    e,
    t.next_is,
    nat_eq_iff x.link p,
    last-ne-first x y ys (λ l. omega (arith, links-members _ gs t l)),
  )

  trim_last :
      (p : ℕ) (next prev : Option ℕ) (g : Group A) (gs : List (Group A))
      → nat_eq g.first.link p ≡ false
      → nat_eq (last_from g.first g.others).link p ≡ true
      → Trims p next prev (g ∷ gs)
      → trim_segments p next prev (map segment_of (g ∷ gs))
        ≡ some (map segment_of (record g { others = delete_link p g.others } ∷ gs))
  unfolding trim_segments
  trim_last p next prev g gs later last t =
      let before : prev ≡ some (last_from g.first (delete_link p g.others)).link =
        t.prev_is later
        ∙ prev_of-last p g.first g.others (nodes gs) later (omega (arith, links-members g gs t p))
            last in
      ground (arith, later, last, before)

  trim_past :
      (p : ℕ) (next prev : Option ℕ) (g : Group A) (ss : List Segment) (l : List Segment)
      → links p (members g) ≡ 0
      → trim_segments p next prev ss ≡ some l
      → trim_segments p next prev (segment_of g ∷ ss) ≡ some (segment_of g ∷ l)
  unfolding trim_segments
  trim_past p next prev g ss l h e = ground (arith, h, e, last_absent p g.first g.others)

  trim_middle :
      (p : ℕ) (next prev : Option ℕ) (g : Group A) (gs : List (Group A))
      → nat_eq g.first.link p ≡ false
      → nat_eq (last_from g.first g.others).link p ≡ false
      → links p (nodes gs) ≡ 0
      → trim_segments p next prev (map segment_of (g ∷ gs))
        ≡ some (map segment_of (record g { others = delete_link p g.others } ∷ gs))
  unfolding trim_segments
  trim_middle p next prev g gs later middle elsewhere = ground (
    arith,
    later,
    middle,
    trim_absent p next prev gs elsewhere,
    last_from-delete_link p g.first g.others middle,
  )

  -- The loop gives the segments of the groups without the link, from the link's neighbours.
  trim-remove :
      (p : ℕ) (next prev : Option ℕ) (gs : List (Group A))
      → Trims p next prev gs
      → trim_segments p next prev (map segment_of gs)
        ≡ some (map segment_of (remove_from_groups p gs))
  unfolding remove_from_groups
  trim-remove p next prev [] t = absurd (omega (arith, t.present))
  trim-remove p next prev (g ∷ gs) t = elim (Bool-cases (nat_eq g.first.link p)) [
    | inl first ↦ rw first (trim_first p next prev g.priority g.first g.others gs first t)
    | inr later ↦ elim (Bool-cases (has_link p g.others)) [
      | inl inside ↦ elim (Bool-cases (nat_eq (last_from g.first g.others).link p)) [
        | inl last ↦ rw (later, inside) (trim_last p next prev g gs later last t)
        | inr middle ↦
            let elsewhere : links p (nodes gs) ≡ 0 =
              ground (arith, later, links-members g gs t p, has_link-links p g.others inside) in
            rw (later, inside) (trim_middle p next prev g gs later middle elsewhere)
      ]
      | inr outside ↦
          let absent : links p (members g) ≡ 0 =
            ground (arith, later, not_has_link-links p g.others outside) in
          rw (later, outside)
            (trim_past p next prev g (map segment_of gs) (map segment_of (remove_from_groups p gs))
              absent (trim-remove p next prev gs (Trims-tail p next prev g gs absent t)))
    ]
  ]

  -- On the state for valid groups, to remove a link of the queue runs without a fault, into the state
  -- for the groups without it.
  pub remove_node-represent :
      (gs : List (Group A)) (p : ℕ)
      → IsValid gs
      → 1 ≤ links p (nodes gs)
      → remove_node (represent gs) p ≡ some (represent (remove_from_groups p gs))
  unfolding remove_node
  remove_node-represent gs p v h =
      rw
        (
          trim-remove p (next_of p (nodes gs)) (prev_of p (nodes gs)) gs
              (record { distinct = v.distinct; present = h; next_is = refl; prev_is = λ _. refl }),
          delete_link-nodes p gs,
        )
        refl
