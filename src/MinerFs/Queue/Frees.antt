-- ===== src/MinerFs/Queue/Frees.antt =====
-- The freeing of events, which takes their root_nodes out of the queues of the roots.
use tracker_miners.Base.UniqueKeys.{IsTable, insert-IsTable}
use tracker_miners.Base.Options.{some_inj}
use tracker_miners.Base.{
  ℕ, ◌+◌, ◌≤◌, ◌≡◌, refl, Bool, false, ◌&&◌, Bool-cases, inl, inr, Option, none, some, Option-cases,
  List, [], ◌∷◌, arith, nat_eq, nat_eq_iff, nat_eq_refl, if◌then◌else◌, count, Table, lookup,
  insert, lookup-insert, subst, ◌==◌, ==_refl,
}
use tracker_miners.Base.Files.{FileOps, file_Eq}
use tracker_miners.PriorityQueue.{Node}
use tracker_miners.MinerFs.Queue.{Item, delete_node, queue_event_free, free_all}

-- how often a link stands in a queue of root_nodes
abbrev pub times : ℕ → List ℕ → ℕ
times l q = count (λ k. nat_eq k l) q

pub delete_node-times :
    (l : ℕ) (q : List ℕ)
    → 1 ≤ times l q
    → (r : List ℕ) × (delete_node l q ≡ some r)
      × ((k : ℕ) → times k r + (if nat_eq l k then 1 else 0) ≡ times k q)
unfolding delete_node
delete_node-times l [] h = absurd (omega arith)
delete_node-times l (x ∷ xs) h = elim (Bool-cases (nat_eq x l)) [
  | inl here ↦ (xs, ground (arith, here), λ k. ground (arith, here, nat_eq_iff x l))
  | inr there ↦
      let (r, e, c) = delete_node-times l xs (ground (arith, h, there)) in
      (x ∷ r, ground (arith, e, there), λ k. ground (arith, c k))
]

module _ {File : Type 0} ⦃ops : FileOps File⦄ where
  abbrev pub queue_of : File → Table File (List ℕ) → List ℕ
  queue_of r roots = elim (lookup r roots) [ none ↦ [] | some q ↦ q ]

  abbrev pub is_root : File → Option File → Bool
  is_root r none = false
  is_root r (some s) = s == r

  -- the event at a link, when its root_node is in the root's queue
  abbrev pub of_root : File → ℕ → Node (Item File) → Bool
  of_root r l n = nat_eq n.link l && is_root r n.elem.root

  pub queue_of-insert :
      (r s : File) (q : List ℕ) (roots : Table File (List ℕ))
      → queue_of s (insert r q roots) ≡ (if r == s then q else queue_of s roots)
  queue_of-insert r s q roots = ground (arith, lookup-insert r s q roots)

  -- what the freeing of events leaves, where all of them are in the queues
  abbrev pub Freed : List (Node (Item File)) → Table File (List ℕ) → Table File (List ℕ) → Type 0
  Freed xs before after =
      (r : File) (l : ℕ)
      → times l (queue_of r after) + count (of_root r l) xs ≡ times l (queue_of r before)

  pub queue_event_free-Freed :
      (n : Node (Item File)) (roots : Table File (List ℕ))
      → ((r : File) (l : ℕ) → count (of_root r l) (n ∷ []) ≤ times l (queue_of r roots))
      → (after : Table File (List ℕ)) × (queue_event_free n roots ≡ some after)
        × Freed (n ∷ []) roots after
  unfolding queue_event_free
  queue_event_free-Freed n roots h = elim (Option-cases n.elem.root) [
    | inl none_root ↦ (roots, ground (arith, none_root), λ r l. ground (arith, none_root))
    | inr (r, e) ↦ elim (Option-cases (lookup r roots)) [
      | inl missing ↦ absurd (ground (arith, h r n.link, e, missing, nat_eq_refl n.link, ==_refl r))
      | inr (q, f) ↦
          let (rest, d, c) =
            delete_node-times n.link q
              (ground (arith, h r n.link, e, f, nat_eq_refl n.link, ==_refl r)) in
          (
            insert r rest roots,
            ground (arith, e, f, d),
            λ s l. ground (arith, e, f, c l, queue_of-insert r s rest roots, ops.eq.same_iff r s),
          )
    ]
  ]

  pub free_all-Freed :
      (xs : List (Node (Item File))) (roots : Table File (List ℕ))
      → ((r : File) (l : ℕ) → count (of_root r l) xs ≤ times l (queue_of r roots))
      → (after : Table File (List ℕ)) × (free_all xs roots ≡ some after) × Freed xs roots after
  unfolding free_all
  free_all-Freed [] roots h = (roots, refl, λ r l. omega arith)
  free_all-Freed (x ∷ xs) roots h =
      let (mid, e, f) = queue_event_free-Freed x roots (λ r l. omega (arith, h r l)) in
      let (after, d, g) = free_all-Freed xs mid (λ r l. omega (arith, h r l, f r l)) in
      (after, ground (arith, e, d), λ r l. omega (arith, f r l, g r l))

  pub queue_event_free-IsTable :
      (n : Node (Item File)) (roots after : Table File (List ℕ))
      → queue_event_free n roots ≡ some after
      → IsTable roots
      → IsTable after
  unfolding queue_event_free
  queue_event_free-IsTable n roots after e h = elim (Option-cases n.elem.root) [
    | inl none_root ↦ subst IsTable (some_inj roots after (ground (arith, e, none_root))) h
    | inr (r, f) ↦ elim (Option-cases (lookup r roots)) [
      | inl missing ↦ absurd (ground (arith, e, f, missing))
      | inr (q, g) ↦ elim (Option-cases (delete_node n.link q)) [
        | inl lost ↦ absurd (ground (arith, e, f, g, lost))
        | inr (rest, d) ↦
            subst IsTable (some_inj (insert r rest roots) after (ground (arith, e, f, g, d)))
              (insert-IsTable r rest roots h)
      ]
    ]
  ]

  pub free_all-IsTable :
      (xs : List (Node (Item File))) (roots after : Table File (List ℕ))
      → free_all xs roots ≡ some after
      → IsTable roots
      → IsTable after
  unfolding free_all
  free_all-IsTable [] roots after e h = subst IsTable (some_inj roots after e) h
  free_all-IsTable (x ∷ xs) roots after e h = elim (Option-cases (queue_event_free x roots)) [
    | inl lost ↦ absurd (ground (arith, e, lost))
    | inr (mid, f) ↦
        free_all-IsTable xs mid after (ground (arith, e, f))
          (queue_event_free-IsTable x roots mid f h)
  ]
