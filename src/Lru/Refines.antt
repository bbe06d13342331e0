-- ===== src/Lru/Refines.antt =====
-- The calls on a cache against the same calls on the list of its elements, the latest first.
use tracker_miners.Base.Options.{none_of, ◌>>=◌}
use tracker_miners.Base.{
  ℕ, suc, ◌≡◌, refl, ap, sym, ◌∙◌, none, some, Option, List, [], ◌∷◌, arith, ltb, if◌then◌else◌, Eq,
  length, Table, lookup, remove_key, is_some,
}
use tracker_miners.Lru.{
  LruElement, Lru, unlink, free_node, to_head, find_at, find, remove_at, remove,
}
use tracker_miners.Base.UniqueKeys.{remove_key-absent}
use tracker_miners.Lru.Recent.{pairs, lookup-both, lookup-IsNode}
use tracker_miners.Lru.Cache.{
  without, without-IsCache, at_head, at_head-IsCache, push_to_head-unlink, IsCache,
}

module _ {E D : Type 0} ⦃keys : Eq E⦄ where
  -- the list without its last pair
  abbrev pub drop_last : E × D → Table E D → Table E D
  drop_last p [] = []
  drop_last p (r ∷ t) = p ∷ drop_last r t

  -- The calls on the list of elements.
  abbrev pub promote : E → Option D → Table E D → Table E D
  promote e none t = t
  promote e (some d) t = (e, d) ∷ remove_key e t

  abbrev pub add_recent : ℕ → E → D → Table E D → Table E D
  add_recent max e d t = if ltb max (suc (length t)) then drop_last (e, d) t else (e, d) ∷ t

  pub length-pairs : (q : List (LruElement E D)) → length (pairs q) ≡ length q
  length-pairs [] = refl
  length-pairs (n ∷ ns) = omega (arith, length-pairs ns)

  -- Looking for an element gives its data, if it is in the cache, and makes it the latest.
  pub find-IsCache :
      (e : E) (lru : Lru E D)
      → IsCache lru
      → (r : Lru E D) × (find e lru ≡ some (lookup e (pairs lru.queue), r))
        × IsCache r
        × (pairs r.queue ≡ promote e (lookup e (pairs lru.queue)) (pairs lru.queue))
        × (r.max_size ≡ lru.max_size)
  unfolding find
  find-IsCache e lru s = by_item (lookup e lru.items) refl
    where
      by_item :
          (o : Option ℕ)
          → lookup e lru.items ≡ o
          → (r : Lru E D) × (find_at lru o ≡ some (lookup e (pairs lru.queue), r))
            × IsCache r
            × (pairs r.queue ≡ promote e (lookup e (pairs lru.queue)) (pairs lru.queue))
            × (r.max_size ≡ lru.max_size)
      by_item none h =
          let gone =
            none_of (lookup e (pairs lru.queue))
              (sym (lookup-both e lru.queue) ∙ ap is_some (sym (s.linked e) ∙ h)) in
          (
            lru,
            ap (λ o. some (o, lru)) (sym gone),
            s,
            sym (ap (λ o. promote e o (pairs lru.queue)) gone),
            refl,
          )
      by_item (some l) h =
          let (n, el, li, at, w) =
            lookup-IsNode e l lru.queue s.unique s.distinct (sym (s.linked e) ∙ h) in
          let value = ap (λ x. lookup x (pairs lru.queue)) (sym el) ∙ w.value_of in
          (
            at_head n lru,
            ap (λ o. o >>= λ m. some (some m.value, to_head m lru)) at
                ∙ (ap (λ q. some (some n.value, record lru { queue = q }))
                      (push_to_head-unlink n lru.queue w.here)
                    ∙ ap (λ o. some (o, at_head n lru)) (sym value)),
            at_head-IsCache n lru s w,
            ap (λ t. (n.element, n.value) ∷ t) w.pairs_left
                ∙ (ap (λ x. (x, n.value) ∷ remove_key x (pairs lru.queue)) el
                    ∙ sym (ap (λ o. promote e o (pairs lru.queue)) value)),
            refl,
          )

  pub remove-IsCache :
      (e : E) (lru : Lru E D)
      → IsCache lru
      → (r : Lru E D) × (remove e lru ≡ some r)
        × IsCache r
        × (pairs r.queue ≡ remove_key e (pairs lru.queue))
        × (r.max_size ≡ lru.max_size)
  unfolding remove
  remove-IsCache e lru s = by_item (lookup e lru.items) refl
    where
      by_item :
          (o : Option ℕ)
          → lookup e lru.items ≡ o
          → (r : Lru E D) × (remove_at lru o ≡ some r)
            × IsCache r
            × (pairs r.queue ≡ remove_key e (pairs lru.queue))
            × (r.max_size ≡ lru.max_size)
      by_item none h =
          let gone =
            none_of (lookup e (pairs lru.queue))
              (sym (lookup-both e lru.queue) ∙ ap is_some (sym (s.linked e) ∙ h)) in
          (lru, refl, s, sym (remove_key-absent e (pairs lru.queue) gone), refl)
      by_item (some l) h =
          let (n, el, li, at, w) =
            lookup-IsNode e l lru.queue s.unique s.distinct (sym (s.linked e) ∙ h) in
          (
            without n lru,
            ap
                  (λ o. o >>= λ m.
                    some (record lru { queue = unlink l lru.queue; items = free_node m lru.items }))
                  at
                ∙ ap
                    (λ k.
                      some
                        (record lru { queue = unlink k lru.queue; items = free_node n lru.items }))
                    (sym li),
            without-IsCache n lru s w,
            w.pairs_left ∙ ap (λ x. remove_key x (pairs lru.queue)) el,
            refl,
          )
