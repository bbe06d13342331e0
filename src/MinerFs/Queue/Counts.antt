-- ===== src/MinerFs/Queue/Counts.antt =====
-- How many events of the queue pass a test, after each of the changes of the queue.
use tracker_miners.Base.Options.{some_inj}
use tracker_miners.Base.{
  ℕ, ◌+◌, ◌≡◌, refl, ap, sym, ◌∙◌, Bool, true, not, Bool-cases, inl, inr, some, List, [], ◌∷◌, ◌++◌,
  arith, nat_eq, nat_eq_iff, if◌then◌else◌, count, count-append, filter, filter-append,
}
use tracker_miners.Base.Int.{ℤ}
use tracker_miners.PriorityQueue.{Node, delete_link}
use tracker_miners.PriorityQueue.Groups.{Group, members, nodes, add_to_groups}
use tracker_miners.PriorityQueue.Neighbours.{nodes-shorten}
use tracker_miners.PriorityQueue.ForeachRemove.{kept, remove_passing}
use tracker_miners.MinerFs.Queue.{Item, find_item}

module _ {A : Type 0} (test : Node A → Bool) where
  pub count-add_to_groups :
      (p : ℤ) (n : Node A) (gs : List (Group A))
      → count test (nodes (add_to_groups p n gs)) ≡ count test (n ∷ nodes gs)
  unfolding add_to_groups
  count-add_to_groups p n [] = refl
  count-add_to_groups p n (g ∷ gs) = ground (
    arith,
    count-add_to_groups p n gs,
    count-append test g.others (nodes gs),
    count-append test (g.others ++ n ∷ []) (nodes gs),
    count-append test g.others (n ∷ []),
    count-append test g.others (nodes (add_to_groups p n gs)),
  )

  -- a filter parts a list
  pub count-filter :
      (p q : Node A → Bool) (xs : List (Node A))
      → ((n : Node A) → q n ≡ not (p n))
      → count test (filter p xs) + count test (filter q xs) ≡ count test xs
  count-filter p q [] h = omega arith
  count-filter p q (x ∷ xs) h = ground (arith, h x, count-filter p q xs h)

  -- a filter that keeps all that pass the test
  pub count-filter_all :
      (q : Node A → Bool) (xs : List (Node A))
      → ((n : Node A) → test n ≡ true → q n ≡ true)
      → count test (filter q xs) ≡ count test xs
  count-filter_all q [] h = refl
  count-filter_all q (x ∷ xs) h = ground (arith, h x, count-filter_all q xs h)

module _ {A : Type 0} (passes : A → Bool) where
  pub nodes-remove_passing :
      (gs : List (Group A)) → nodes (remove_passing passes gs) ≡ filter (kept passes) (nodes gs)
  unfolding remove_passing
  nodes-remove_passing [] = refl
  nodes-remove_passing (g ∷ gs) =
      nodes-shorten g.priority (filter (kept passes) (members g)) (remove_passing passes gs)
      ∙ (ap (λ r. filter (kept passes) (members g) ++ r) (nodes-remove_passing gs)
          ∙ sym (filter-append (kept passes) (members g) (nodes gs)))

find_item_here :
    {File : Type 0} (p : ℕ) (i : Item File) (n : Node (Item File)) (ns : List (Node (Item File)))
    → nat_eq n.link p ≡ true
    → find_item p (n ∷ ns) ≡ some i
    → record { link = p; elem = i } ≡ n
find_item_here p i n ns here h =
    ap (λ l. record { link = l; elem = i }) (sym ((nat_eq_iff n.link p).0 here))
    ∙ ap (λ x. record { link = n.link; elem = x })
        (sym (some_inj n.elem i (ground (arith, here, h))))

module _ {File : Type 0} (test : Node (Item File) → Bool) where
  pub count-delete_link :
      (p : ℕ) (i : Item File) (ns : List (Node (Item File)))
      → find_item p ns ≡ some i
      → count test (delete_link p ns) + (if test (record { link = p; elem = i }) then 1 else 0)
        ≡ count test ns
  unfolding delete_link
  count-delete_link p i [] h = absurd (ground (arith, h))
  count-delete_link p i (n ∷ ns) h = elim (Bool-cases (nat_eq n.link p)) [
    | inl here ↦ rw (here, find_item_here p i n ns here h) (omega arith)
    | inr there ↦ ground (arith, h, there, count-delete_link p i ns)
  ]
