-- ===== src/PriorityQueue/ForeachRemove.antt =====
-- tracker_priority_queue_foreach_remove on the state for valid groups.
use tracker_miners.Base.{
  ℕ, ◌≤◌, ◌≡◌, subst, inl, inr, refl, sym, Bool, true, false, not, ◌||◌, some, List, [], ◌∷◌, ◌++◌,
  map, arith, nat_eq, nat_eq_refl, nat_eq_iff, length, filter, count-append, append_assoc,
  append-nil, Bool-cases,
}
use tracker_miners.Base.Int.{ℤ}
use tracker_miners.PriorityQueue.{Node, Segment, PriorityQueue}
use tracker_miners.PriorityQueue.Groups.{
  Group, members, last_from, segment_of, nodes, links, represent, IsValid,
}
use tracker_miners.PriorityQueue.Pop.{shorten, last-ne-first}
use tracker_miners.PriorityQueue.Removal.{foreach_remove_loop, foreach_remove}
use tracker_miners.PriorityQueue.Rounds.{
  last_link-append, last_from-append, keep_inside, keep_last, drop_only, drop_first, drop_last,
  drop_inside,
}

module _ {A : Type 0} where
  abbrev pub Distinct : List (Node A) → Type 0
  Distinct xs = (l : ℕ) → links l xs ≤ 1

  not_first :
      (k : Node A) (ks : List (Node A)) (r : Node A) (rs : List (Node A))
      → Distinct (k ∷ (ks ++ r ∷ rs))
      → nat_eq r.link k.link ≡ false
  not_first k ks r rs h =
      ground
        (arith, h k.link, count-append (λ n. nat_eq n.link k.link) ks (r ∷ rs), nat_eq_refl k.link)

  pub first_not_last :
      (r y : Node A) (ys : List (Node A))
      → Distinct (r ∷ y ∷ ys)
      → nat_eq r.link (last_from y ys).link ≡ false
  first_not_last r y ys h = ground (
    arith,
    last-ne-first r y ys h,
    nat_eq_iff r.link (last_from y ys).link,
    nat_eq_iff (last_from y ys).link r.link,
  )

  not_last :
      (k : Node A) (ks : List (Node A)) (r y : Node A) (ys : List (Node A))
      → Distinct (k ∷ (ks ++ r ∷ y ∷ ys))
      → nat_eq r.link (last_from y ys).link ≡ false
  not_last k ks r y ys h =
      first_not_last r y ys
        (λ l. omega (arith, h l, count-append (λ n. nat_eq n.link l) ks (r ∷ y ∷ ys)))

  fewer :
      (k : Node A) (ks : List (Node A)) (r : Node A) (rs : List (Node A))
      → Distinct (k ∷ (ks ++ r ∷ rs))
      → Distinct (k ∷ (ks ++ rs))
  fewer k ks r rs h l = omega (
    arith,
    h l,
    count-append (λ n. nat_eq n.link l) ks (r ∷ rs),
    count-append (λ n. nat_eq n.link l) ks rs,
  )

  module _ (test : A → Bool) where
    abbrev pub kept : Node A → Bool
    kept x = not (test x.elem)

    abbrev pub some_pass : List (Node A) → Bool
    some_pass [] = false
    some_pass (x ∷ xs) = test x.elem || some_pass xs

    -- the groups without the elements that pass the test; a group that loses all of them goes
    unfoldable pub remove_passing : List (Group A) → List (Group A)
    remove_passing [] = []
    remove_passing (g ∷ gs) = shorten g.priority (filter kept (members g)) (remove_passing gs)

    -- What the loop leaves behind `before`, the links that it keeps, and `pre`, the segments that it
    -- is done with.
    abbrev Leaves : List (Node A) → List Segment → List (Group A) → PriorityQueue A
    Leaves before pre gs = record {
      queue = before ++ nodes gs;
      segments = pre ++ map segment_of gs;
    }

    abbrev Finishes : List (Group A) → Type 0
    Finishes gs =
        (before : List (Node A)) (pre : List Segment) (updated : Bool)
        → foreach_remove_loop test before (nodes gs) (pre ++ map segment_of gs) (length pre) updated
          ≡ some (Leaves before pre (remove_passing gs), updated || some_pass (nodes gs))

    abbrev segment : ℤ → Node A → Node A → Segment
    segment p x y = record { priority = p; first_elem = x.link; last_elem = y.link }

    module _ (gs : List (Group A)) (next : Finishes gs) (p : ℤ) where
      -- Behind a kept link of the group.
      finish_kept :
          (base : List (Node A)) (k : Node A) (ks : List (Node A)) (r : Node A) (rs : List (Node A))
          (pre : List Segment) (updated : Bool)
          → ((l : ℕ) → links l (k ∷ (ks ++ r ∷ rs)) ≤ 1)
          → foreach_remove_loop test
              (base ++ k ∷ ks)
              (r ∷ (rs ++ nodes gs))
              (pre
                ++ record { priority = p; first_elem = k.link; last_elem = (last_from r rs).link }
                  ∷ map segment_of gs)
              (length pre)
              updated
            ≡ some (
              Leaves base pre (
                  record { priority = p; first = k; others = ks ++ filter kept (r ∷ rs) }
                  ∷ remove_passing gs),
              updated || some_pass (r ∷ (rs ++ nodes gs)),
            )
      finish_kept base k ks r [] pre updated h = elim (Bool-cases (test r.elem)) [
        | inl pass ↦ ground (
          arith,
          pass,
          append-nil ks,
          append_assoc base (k ∷ ks) (nodes (remove_passing gs)),
          append_assoc pre (segment p k (last_from k ks) ∷ []) (map segment_of (remove_passing gs)),
          drop_last test r (nodes gs) pre (map segment_of gs) (segment p k r) updated
              (base ++ k ∷ ks) (last_from k ks).link pass (not_first k ks r [] h)
              (nat_eq_refl r.link) (last_link-append base k ks),
          next (base ++ k ∷ ks) (pre ++ segment p k (last_from k ks) ∷ []) true,
        )
        | inr stay ↦ ground (
          arith,
          stay,
          append_assoc base (k ∷ ks) (r ∷ []),
          last_from-append k ks r,
          append_assoc base (k ∷ (ks ++ r ∷ [])) (nodes (remove_passing gs)),
          append_assoc pre (segment p k r ∷ []) (map segment_of (remove_passing gs)),
          keep_last test r (nodes gs) pre (map segment_of gs) (segment p k r) updated
              (base ++ k ∷ ks) stay (nat_eq_refl r.link),
          next (base ++ k ∷ (ks ++ r ∷ [])) (pre ++ segment p k r ∷ []) updated,
        )
      ]
      finish_kept base k ks r (y ∷ ys) pre updated h = elim (Bool-cases (test r.elem)) [
        | inl pass ↦ ground (
          arith,
          pass,
          drop_inside test r (y ∷ (ys ++ nodes gs)) pre (map segment_of gs)
              (segment p k (last_from y ys)) updated (base ++ k ∷ ks) pass
              (not_first k ks r (y ∷ ys) h) (not_last k ks r y ys h),
          finish_kept base k ks y ys pre true (fewer k ks r (y ∷ ys) h),
        )
        | inr stay ↦ ground (
          arith,
          stay,
          append_assoc base (k ∷ ks) (r ∷ []),
          append_assoc ks (r ∷ []) (y ∷ ys),
          append_assoc ks (r ∷ []) (filter kept (y ∷ ys)),
          keep_inside test r (y ∷ (ys ++ nodes gs)) pre (map segment_of gs)
              (segment p k (last_from y ys)) updated (base ++ k ∷ ks) stay (not_last k ks r y ys h),
          finish_kept base k (ks ++ r ∷ []) y ys pre updated (λ l.
              subst (λ xs. links l (k ∷ xs) ≤ 1) (sym (append_assoc ks (r ∷ []) (y ∷ ys))) (h l)),
        )
      ]

      -- At the first link that is left of the group.
      finish_first :
          (base : List (Node A)) (r : Node A) (rs : List (Node A)) (pre : List Segment)
          (updated : Bool)
          → Distinct (r ∷ rs)
          → foreach_remove_loop test base
              (r ∷ (rs ++ nodes gs))
              (pre ++ segment p r (last_from r rs) ∷ map segment_of gs)
              (length pre)
              updated
            ≡ some (
              Leaves base pre (shorten p (filter kept (r ∷ rs)) (remove_passing gs)),
              updated || some_pass (r ∷ (rs ++ nodes gs)),
            )
      finish_first base r [] pre updated h = elim (Bool-cases (test r.elem)) [
        | inl pass ↦ ground (
          arith,
          pass,
          drop_only test r (nodes gs) pre (map segment_of gs) (segment p r r) updated base pass
              (nat_eq_refl r.link) (nat_eq_refl r.link),
          next base pre true,
        )
        | inr stay ↦ ground (
          arith,
          stay,
          append_assoc base (r ∷ []) (nodes (remove_passing gs)),
          append_assoc pre (segment p r r ∷ []) (map segment_of (remove_passing gs)),
          keep_last test r (nodes gs) pre (map segment_of gs) (segment p r r) updated base stay
              (nat_eq_refl r.link),
          next (base ++ r ∷ []) (pre ++ segment p r r ∷ []) updated,
        )
      ]
      finish_first base r (y ∷ ys) pre updated h = elim (Bool-cases (test r.elem)) [
        | inl pass ↦ ground (
          arith,
          pass,
          drop_first test r (y ∷ (ys ++ nodes gs)) pre (map segment_of gs)
              (segment p r (last_from y ys)) updated base y.link pass (nat_eq_refl r.link)
              (first_not_last r y ys h) refl,
          finish_first base y ys pre true (λ l. omega (arith, h l)),
        )
        | inr stay ↦ ground (
          arith,
          stay,
          keep_inside test r (y ∷ (ys ++ nodes gs)) pre (map segment_of gs)
              (segment p r (last_from y ys)) updated base stay (first_not_last r y ys h),
          finish_kept base r [] y ys pre updated h,
        )
      ]

    finish_all : (gs : List (Group A)) → Distinct (nodes gs) → Finishes gs
    unfolding remove_passing foreach_remove_loop
    finish_all [] h before pre updated = ground (arith, append-nil before, append-nil pre)
    finish_all (g ∷ gs) h before pre updated =
        finish_first gs
          (finish_all gs
            (λ l. omega (arith, h l, count-append (λ n. nat_eq n.link l) (members g) (nodes gs))))
          g.priority before g.first g.others pre updated
          (λ l. omega (arith, h l, count-append (λ n. nat_eq n.link l) (members g) (nodes gs)))

    -- On the state for valid groups, foreach_remove runs without a fault, into the state for the groups
    -- without the elements that pass the test, and tells whether there are any.
    pub foreach_remove-represent :
        (gs : List (Group A))
        → IsValid gs
        → foreach_remove (represent gs) test
          ≡ some (represent (remove_passing gs), some_pass (nodes gs))
    unfolding foreach_remove
    foreach_remove-represent gs v = finish_all gs v.distinct [] [] false
