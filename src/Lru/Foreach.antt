-- ===== src/Lru/Foreach.antt =====
-- tracker_lru_remove_foreach.
use tracker_miners.Base.{
  ℕ, ◌+◌, ◌≡◌, refl, ap, sym, subst, ◌∙◌, Bool, true, ◌&&◌, none, Bool-cases, inl, inr, List, [],
  ◌∷◌, arith, if◌then◌else◌, Eq, ◌==◌, ==_refl, length, Table, lookup, remove_keys,
  lookup-remove_key, lookup-remove_keys, is_some,
}
use tracker_miners.Lru.{LruElement, Lru, node_at, free_node, remove_loop, remove_foreach}
use tracker_miners.Base.UniqueKeys.{IsTable, remove_key-IsTable, length-remove_key}
use tracker_miners.Lru.Recent.{pairs, links, HasDistinct, lookup-both}
use tracker_miners.Lru.Cache.{IsCache}

remove_keys-IsTable :
    {E V : Type 0} ⦃keys : Eq E⦄ (test : E → Bool) (t : Table E V)
    → IsTable t
    → IsTable (remove_keys test t)
unfolding remove_keys
remove_keys-IsTable test [] h = tt
remove_keys-IsTable test ((k, v) ∷ t) h =
    ground (arith, h, remove_keys-IsTable test t h.1, lookup-remove_keys test k t)

module _ {E D : Type 0} ⦃keys : Eq E⦄ (test : E → Bool) where
  loop_links :
      (q : List (LruElement E D)) (items : Table E ℕ)
      → links (remove_loop test q items).0 ≡ remove_keys test (links q)
  unfolding remove_loop remove_keys
  loop_links [] items = refl
  loop_links (n ∷ ns) items = ground (arith, loop_links ns items, loop_links ns (free_node n items))

  loop_pairs :
      (q : List (LruElement E D)) (items : Table E ℕ)
      → pairs (remove_loop test q items).0 ≡ remove_keys test (pairs q)
  unfolding remove_loop remove_keys
  loop_pairs [] items = refl
  loop_pairs (n ∷ ns) items = ground (arith, loop_pairs ns items, loop_pairs ns (free_node n items))

  -- the loop takes the elements that pass out of the table
  lookup-loop :
      (q : List (LruElement E D)) (items : Table E ℕ) (e : E)
      → lookup e (remove_loop test q items).1
        ≡ (if test e && is_some (lookup e (links q)) then none else lookup e items)
  unfolding remove_loop lookup
  lookup-loop [] items e = ground arith
  lookup-loop (n ∷ ns) items e = elim (Bool-cases (n.element == e)) [
    | inl same ↦ ground (
      arith,
      same,
      ap test ((keys.same_iff n.element e).0 same),
      lookup-loop ns items e,
      lookup-loop ns (free_node n items) e,
      lookup-remove_key n.element e items,
    )
    | inr other ↦ ground (
      arith,
      other,
      lookup-loop ns items e,
      lookup-loop ns (free_node n items) e,
      lookup-remove_key n.element e items,
    )
  ]

  loop-IsTable :
      (q : List (LruElement E D)) (items : Table E ℕ)
      → IsTable items
      → IsTable (remove_loop test q items).1
  unfolding remove_loop
  loop-IsTable [] items t = t
  loop-IsTable (n ∷ ns) items t = ground (
    arith,
    loop-IsTable ns items t,
    loop-IsTable ns (free_node n items) (remove_key-IsTable n.element items t),
  )

  node_at-loop :
      (k : ℕ) (q : List (LruElement E D)) (items : Table E ℕ)
      → node_at k q ≡ none
      → node_at k (remove_loop test q items).0 ≡ none
  unfolding remove_loop
  node_at-loop k [] items h = refl
  node_at-loop k (n ∷ ns) items h =
      ground (arith, h, node_at-loop k ns items, node_at-loop k ns (free_node n items))

  loop-HasDistinct :
      (q : List (LruElement E D)) (items : Table E ℕ)
      → HasDistinct q
      → HasDistinct (remove_loop test q items).0
  unfolding remove_loop
  loop-HasDistinct [] items d = tt
  loop-HasDistinct (n ∷ ns) items d = ground (
    arith,
    d,
    loop-HasDistinct ns items d.1,
    loop-HasDistinct ns (free_node n items) d.1,
    node_at-loop n.link ns items d.0,
  )

  -- The table has the elements of the queue from the link on.
  length-loop :
      (q : List (LruElement E D)) (items : Table E ℕ)
      → IsTable (pairs q)
      → IsTable items
      → ((e : E) → is_some (lookup e (pairs q)) ≡ true → is_some (lookup e items) ≡ true)
      → length (remove_loop test q items).1 + length q
        ≡ length items + length (remove_loop test q items).0
  unfolding remove_loop lookup
  length-loop [] items u t h = omega arith
  length-loop (n ∷ ns) items u t h = elim (Bool-cases (test n.element)) [
    | inl gone ↦ ground (
      arith,
      gone,
      length-remove_key n.element items t,
      h n.element,
      ==_refl n.element,
      length-loop ns (free_node n items) u.1 (remove_key-IsTable n.element items t) freed,
    )
    | inr kept ↦ ground (arith, kept, length-loop ns items u.1 t kept_in)
  ]
    where
      freed :
          (e : E)
          → is_some (lookup e (pairs ns)) ≡ true
          → is_some (lookup e (free_node n items)) ≡ true
      freed e k = elim (Bool-cases (n.element == e)) [
        | inl same ↦ absurd (
            ground
              (arith, k, u.0, ap (λ x. lookup x (pairs ns)) ((keys.same_iff n.element e).0 same)))
        | inr other ↦ ground (arith, k, h e, other, lookup-remove_key n.element e items)
      ]

      kept_in : (e : E) → is_some (lookup e (pairs ns)) ≡ true → is_some (lookup e items) ≡ true
      kept_in e k = ground (arith, k, h e)

  pub remove_foreach-IsCache :
      (lru : Lru E D)
      → IsCache lru
      → IsCache (remove_foreach test lru)
        × (pairs (remove_foreach test lru).queue ≡ remove_keys test (pairs lru.queue))
        × ((remove_foreach test lru).max_size ≡ lru.max_size)
  unfolding remove_foreach
  remove_foreach-IsCache lru s = (
    record {
      linked = λ e.
          lookup-loop lru.queue lru.items e
          ∙ (ground (arith, s.linked e, lookup-remove_keys test e (links lru.queue))
              ∙ ap (lookup e) (sym (loop_links lru.queue lru.items)));
      table = loop-IsTable lru.queue lru.items s.table;
      unique =
          subst IsTable (sym (loop_pairs lru.queue lru.items))
            (remove_keys-IsTable test (pairs lru.queue) s.unique);
      distinct = loop-HasDistinct lru.queue lru.items s.distinct;
      fresh = λ k m. node_at-loop k lru.queue lru.items (s.fresh k m);
      sized = omega (
        arith,
        s.sized,
        length-loop lru.queue lru.items s.unique s.table
            (λ e k. ap is_some (s.linked e) ∙ (lookup-both e lru.queue ∙ k)),
      );
    },
    loop_pairs lru.queue lru.items,
    refl,
  )
