-- ===== src/Lru/Adds.antt =====
-- tracker_lru_add.
use tracker_miners.Base.Options.{none_of, some_inj}
use tracker_miners.Base.{
  ℕ, suc, ◌≡◌, refl, ap, sym, subst, ◌∙◌, false, none, some, Bool-cases, inl, inr, List, [], ◌∷◌,
  arith, nat_eq_refl, ltb, if◌then◌else◌, Eq, ◌==◌, ==_refl, length, Table, lookup, insert,
  lookup-insert, is_some,
}
use tracker_miners.Lru.{LruElement, Lru, node_at, unlink, pop_tail, free_node, pushed, add}
use tracker_miners.Base.UniqueKeys.{IsTable, remove_key-absent, insert-IsTable}
use tracker_miners.Lru.Recent.{
  pairs, links, other_link, HasDistinct, lookup-both, IsNode, lookup-IsNode,
}
use tracker_miners.Lru.Refines.{drop_last, add_recent, length-pairs}
use tracker_miners.Lru.Cache.{IsCache, without-IsCache}

insert_sized :
    {E : Type 0} ⦃keys : Eq E⦄ (e : E) (l : ℕ) (items : Table E ℕ) (n : ℕ)
    → length items ≡ n
    → lookup e items ≡ none
    → length (insert e l items) ≡ suc n
unfolding insert
insert_sized e l items n s gone = omega (arith, s, ap length (remove_key-absent e items gone))

module _ {E D : Type 0} ⦃keys : Eq E⦄ where
  -- the last node of a queue
  abbrev Last : LruElement E D → List (LruElement E D) → Type 0
  Last n q =
      (node_at (pop_tail n q).0.link (n ∷ q) ≡ some (pop_tail n q).0)
      × (lookup (pop_tail n q).0.element (links (n ∷ q)) ≡ some (pop_tail n q).0.link)
      × (unlink (pop_tail n q).0.link (n ∷ q) ≡ (pop_tail n q).1)
      × (pairs (pop_tail n q).1 ≡ drop_last (n.element, n.value) (pairs q))

  pop_tail-Last :
      (n : LruElement E D) (q : List (LruElement E D))
      → IsTable (pairs (n ∷ q))
      → HasDistinct (n ∷ q)
      → Last n q
  unfolding pop_tail unlink lookup
  pop_tail-Last n [] t d = (
    ground (arith, nat_eq_refl n.link),
    ground (arith, ==_refl n.element),
    ground (arith, nat_eq_refl n.link),
    refl,
  )
  pop_tail-Last n (m ∷ ms) t d =
      let (at, li, un, pr) = pop_tail-Last m ms t.1 d.1 in
      let last = (pop_tail m ms).0 in
      let apart = other_link n last.link (m ∷ ms) last d.0 at in
      let other = other_element n.element last.element (m ∷ ms) t.0 last.link li in
      (
        ground (arith, apart, at),
        ground (arith, other, li),
        ground (arith, apart, un),
        ap (λ r. (n.element, n.value) ∷ r) pr,
      )
    where
      other_element :
          (e f : E) (q : List (LruElement E D))
          → lookup e (pairs q) ≡ none
          → (l : ℕ) → lookup f (links q) ≡ some l
          → (e == f) ≡ false
      other_element e f q h l k = elim (Bool-cases (e == f)) [
        | inl same ↦ absurd (
            ground (
              arith,
              h,
              k,
              lookup-both f q,
              ap (λ x. lookup x (pairs q)) ((keys.same_iff e f).0 same),
            ))
        | inr other ↦ other
      ]

  last-IsNode :
      (n : LruElement E D) (q : List (LruElement E D))
      → IsTable (pairs (n ∷ q))
      → HasDistinct (n ∷ q)
      → IsNode (pop_tail n q).0 (n ∷ q)
  last-IsNode n q t d =
      let (at, li, un, pr) = pop_tail-Last n q t d in
      let last = (pop_tail n q).0 in
      let (m, el, lk, there, w) = lookup-IsNode last.element last.link (n ∷ q) t d li in
      subst (λ x. IsNode x (n ∷ q)) (some_inj m last (sym there ∙ at)) w

  pushed-IsCache :
      (e : E) (d : D) (lru : Lru E D)
      → lookup e (pairs lru.queue) ≡ none
      → IsCache lru
      → IsCache (pushed e d lru)
  unfolding lookup
  pushed-IsCache e d lru h s =
      let gone =
        s.linked e
        ∙ none_of (lookup e (links lru.queue)) (lookup-both e lru.queue ∙ ap is_some h) in
      record {
        linked = λ f. ground (arith, lookup-insert e f lru.next_link lru.items, s.linked f);
        table = insert-IsTable e lru.next_link lru.items s.table;
        unique = (h, s.unique);
        distinct = (s.fresh lru.next_link (omega arith), s.distinct);
        fresh = λ k m. ground (arith, s.fresh k);
        sized = insert_sized e lru.next_link lru.items (length lru.queue) s.sized gone;
      }

  -- Adding an element that is not in the cache makes it the latest, and lets the last one go if there are
  -- too many.
  pub add-IsCache :
      (e : E) (d : D) (lru : Lru E D)
      → lookup e (pairs lru.queue) ≡ none
      → IsCache lru
      → IsCache (add e d lru)
        × (pairs (add e d lru).queue ≡ add_recent lru.max_size e d (pairs lru.queue))
        × ((add e d lru).max_size ≡ lru.max_size)
  unfolding add
  add-IsCache e d lru h s =
      let p = pushed-IsCache e d lru h s in
      let n : LruElement E D = record { link = lru.next_link; element = e; value = d } in
      let w = last-IsNode n lru.queue p.unique p.distinct in
      let (at, li, un, pr) = pop_tail-Last n lru.queue p.unique p.distinct in
      let size = p.sized in
      elim (Bool-cases (ltb lru.max_size (length (pushed e d lru).items))) [
        | inl full ↦ (
          rw (if◌then◌else◌, full)
              (subst
                (λ q. IsCache (record (pushed e d lru) {
                  queue = q;
                  items = free_node (pop_tail n lru.queue).0 (pushed e d lru).items;
                }))
                un (without-IsCache (pop_tail n lru.queue).0 (pushed e d lru) p w)),
          ground (arith, full, pr, size, length-pairs lru.queue),
          ground (arith, full),
        )
        | inr room ↦ (
          rw (if◌then◌else◌, room) p,
          ground (arith, room, size, length-pairs lru.queue),
          ground (arith, room),
        )
      ]
