-- ===== src/IndexingTree/Filters/Clearing.antt =====
-- tracker_indexing_tree_clear_filters in closed form.
use tracker_miners.Base.{
  ℕ, zero, suc, ◌≤◌, ◌<◌, ◌≡◌, refl, ap, sym, Bool, not, Option, none, some, List, [], ◌∷◌, ◌++◌,
  if◌then◌else◌, arith, length, filter, count, count-append, filter-append, append_assoc,
  append-nil,
}
use tracker_miners.IndexingTree.Filters.{
  FilterType, same_type, PatternData, clear_loop, clear_filters,
}

module _ {Name : Type 0} where
  abbrev pub matching : FilterType → PatternData Name → Bool
  matching t x = same_type x.type t

  -- the filters of other types
  abbrev pub others : FilterType → List (PatternData Name) → List (PatternData Name)
  others t = filter (λ x. not (matching t x))

  -- Behind the head, the loop clears.
  clear_loop-others :
      (fuel : ℕ) (t : FilterType) (b : PatternData Name) (bs after : List (PatternData Name))
      → count (matching t) after < fuel
      → count (matching t) bs ≡ 0
      → others t bs ≡ bs
      → clear_loop fuel t (b ∷ bs) after ≡ some (b ∷ (bs ++ others t after))
  unfolding clear_loop
  clear_loop-others fuel t b bs [] h k o = ap (λ l. some (b ∷ l)) (sym (append-nil bs))
  clear_loop-others zero t b bs (x ∷ after) h k o = absurd (omega arith)
  clear_loop-others (suc fuel) t b bs (x ∷ after) h k o = ground (
    arith,
    h,
    k,
    o,
    append_assoc bs (x ∷ []) after,
    append_assoc bs (x ∷ []) (others t after),
    count-append (matching t) bs after,
    count-append (matching t) bs (x ∷ []),
    filter-append (λ y. not (matching t y)) bs after,
    filter-append (λ y. not (matching t y)) bs (x ∷ []),
    clear_loop-others fuel t b [] (bs ++ after),
    clear_loop-others (suc fuel) t b (bs ++ x ∷ []) after,
  )

  count-length : (p : PatternData Name → Bool) (l : List (PatternData Name)) → count p l ≤ length l
  count-length p [] = omega arith
  count-length p (x ∷ l) = ground (arith, count-length p l)

  -- Where the first filter is of the type, the one that follows it is passed over.
  abbrev pub cleared : List (PatternData Name) → FilterType → Option (List (PatternData Name))
  cleared [] t = some []
  cleared (x ∷ []) t = if matching t x then none else some (x ∷ [])
  cleared (x ∷ y ∷ l) t =
      if matching t x then some (y ∷ others t l) else some (x ∷ others t (y ∷ l))

  -- tracker_indexing_tree_clear_filters removes every filter of the type, and no other, if the first
  -- filter is of another type. If it is of the type, the filter after it stays whatever its type; and
  -- if there is no filter after it, the code reads through NULL.
  pub clear_filters-cleared :
      (filters : List (PatternData Name)) (t : FilterType)
      → clear_filters filters t ≡ cleared filters t
  unfolding clear_filters clear_loop
  clear_filters-cleared [] t = refl
  clear_filters-cleared (x ∷ []) t = ground arith
  clear_filters-cleared (x ∷ y ∷ l) t = ground (
    arith,
    count-length (matching t) l,
    clear_loop-others (suc (suc (length l))) t y [] l,
    clear_loop-others (suc (suc (suc (length l)))) t x [] (y ∷ l),
  )
