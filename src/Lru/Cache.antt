-- ===== src/Lru/Cache.antt =====
-- The links between the queue and the table of a cache, and the changes that keep them.

use tracker_miners.Base.{
  ℕ, ◌+◌, ◌≤◌, ◌≡◌, ap, sym, subst, ◌∙◌, none, some, Bool-cases, inl, inr, List, [], ◌∷◌, arith,
  nat_eq, nat_eq_iff, nat_eq_refl, if◌then◌else◌, Eq, ◌==◌, ==_refl, length, lookup,
  lookup-remove_key,
}
use tracker_miners.Lru.{LruElement, Lru, node_at, unlink, free_node, push_to_head}
use tracker_miners.Base.UniqueKeys.{IsTable, remove_key-IsTable, length-remove_key}
use tracker_miners.Lru.Recent.{pairs, links, HasDistinct, IsNode}

module _ {E D : Type 0} ⦃keys : Eq E⦄ where
  -- the links between the queue and the table
  pub record IsCache (lru : Lru E D) : Type 0 where
    pub linked : (e : E) → lookup e lru.items ≡ lookup e (links lru.queue)
    pub table : IsTable lru.items
    pub unique : IsTable (pairs lru.queue)
    pub distinct : HasDistinct lru.queue
    pub fresh : (l : ℕ) → lru.next_link ≤ l → node_at l lru.queue ≡ none
    pub sized : length lru.items ≡ length lru.queue

  pub node_at-unlink :
      (l k : ℕ) (q : List (LruElement E D))
      → HasDistinct q
      → node_at k (unlink l q) ≡ (if nat_eq k l then none else node_at k q)
  unfolding unlink
  node_at-unlink l k [] d = ground arith
  node_at-unlink l k (n ∷ ns) d = elim (Bool-cases (nat_eq n.link l)) [
    | inl here ↦ ground (
      arith,
      here,
      nat_eq_iff n.link l,
      nat_eq_iff k l,
      nat_eq_iff n.link k,
      d.0,
      ap (λ x. node_at x ns) ((nat_eq_iff n.link l).0 here),
    )
    | inr there ↦
        ground (arith, there, node_at-unlink l k ns d.1, nat_eq_iff n.link k, nat_eq_iff k l)
  ]

  pub unlink-HasDistinct :
      (l : ℕ) (q : List (LruElement E D)) → HasDistinct q → HasDistinct (unlink l q)
  unfolding unlink
  unlink-HasDistinct l [] d = tt
  unlink-HasDistinct l (n ∷ ns) d =
      ground (arith, d, unlink-HasDistinct l ns, node_at-unlink l n.link ns)

  pub length-unlink :
      (l : ℕ) (q : List (LruElement E D)) (n : LruElement E D)
      → node_at l q ≡ some n
      → length (unlink l q) + 1 ≡ length q
  unfolding unlink
  length-unlink l [] n h = absurd (ground (arith, h))
  length-unlink l (m ∷ ms) n h = ground (arith, h, length-unlink l ms n)

  -- without a node
  abbrev pub without : LruElement E D → Lru E D → Lru E D
  without n lru = record lru { queue = unlink n.link lru.queue; items = free_node n lru.items }

  pub without-IsCache :
      (n : LruElement E D) (lru : Lru E D)
      → IsCache lru
      → IsNode n lru.queue
      → IsCache (without n lru)
  without-IsCache n lru s w = record {
    linked = λ f.
        lookup-remove_key n.element f lru.items
        ∙ (ap (λ o. if n.element == f then none else o) (s.linked f)
            ∙ (sym (lookup-remove_key n.element f (links lru.queue))
                ∙ ap (lookup f) (sym w.links_left)));
    table = remove_key-IsTable n.element lru.items s.table;
    unique =
        subst IsTable (sym w.pairs_left) (remove_key-IsTable n.element (pairs lru.queue) s.unique);
    distinct = unlink-HasDistinct n.link lru.queue s.distinct;
    fresh = λ k m. ground (arith, node_at-unlink n.link k lru.queue s.distinct, s.fresh k m);
    sized = ground (
      arith,
      s.sized,
      length-unlink n.link lru.queue n w.here,
      length-remove_key n.element lru.items s.table,
      s.linked n.element,
      w.link_of,
    );
  }

  -- with a node at the head
  abbrev pub at_head : LruElement E D → Lru E D → Lru E D
  at_head n lru = record lru { queue = n ∷ unlink n.link lru.queue }

  pub at_head-IsCache :
      (n : LruElement E D) (lru : Lru E D)
      → IsCache lru
      → IsNode n lru.queue
      → IsCache (at_head n lru)
  unfolding lookup
  at_head-IsCache n lru s w = record {
    linked = λ f. s.linked f ∙ head_linked f;
    table = s.table;
    unique = (
      ap (lookup n.element) w.pairs_left
          ∙ ground
              (arith, lookup-remove_key n.element n.element (pairs lru.queue), ==_refl n.element),
      subst IsTable (sym w.pairs_left) (remove_key-IsTable n.element (pairs lru.queue) s.unique),
    );
    distinct = (
      ground (arith, node_at-unlink n.link n.link lru.queue s.distinct, nat_eq_refl n.link),
      unlink-HasDistinct n.link lru.queue s.distinct,
    );
    fresh = λ k m. ground (
      arith,
      node_at-unlink n.link k lru.queue s.distinct,
      s.fresh k m,
      nat_eq_iff n.link k,
      w.here,
      s.fresh n.link,
    );
    sized = omega (arith, s.sized, length-unlink n.link lru.queue n w.here);
  }
    where
      head_linked :
          (f : E)
          → lookup f (links lru.queue)
            ≡ lookup f ((n.element, n.link) ∷ links (unlink n.link lru.queue))
      head_linked f = elim (Bool-cases (n.element == f)) [
        | inl same ↦ ground (
          arith,
          same,
          ap (λ x. lookup x (links lru.queue)) ((keys.same_iff n.element f).0 same),
          w.link_of,
        )
        | inr other ↦ ground (
          arith,
          other,
          ap (lookup f) w.links_left,
          lookup-remove_key n.element f (links lru.queue),
        )
      ]

  -- the code leaves a node that is at the head already
  pub push_to_head-unlink :
      (n : LruElement E D) (q : List (LruElement E D))
      → node_at n.link q ≡ some n
      → push_to_head n q ≡ n ∷ unlink n.link q
  unfolding unlink
  push_to_head-unlink n [] h = absurd (ground (arith, h))
  push_to_head-unlink n (m ∷ ms) h = ground (arith, h)
