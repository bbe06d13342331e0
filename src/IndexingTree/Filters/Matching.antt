-- ===== src/IndexingTree/Filters/Matching.antt =====
-- tracker_indexing_tree_file_matches_filter, against the filters that were added.
use tracker_miners.Base.{◌≡◌, refl, Bool, false, not, ◌&&◌, ◌||◌, List, [], ◌∷◌, arith}
use tracker_miners.Base.Files.{FileOps, file_Eq}
use tracker_miners.IndexingTree.Filters.{
  FilterType, filter_file, filter_directory, filter_parent_directory, same_type, PatternData,
  NameOps, add_filter, matches_filter, file_matches_filter,
}

module _ {File Name : Type 0} ⦃ops : FileOps File⦄ (names : NameOps File Name) where
  unfoldable pub add_filters :
      List (PatternData Name) → List (FilterType × Name) → List (PatternData Name)
  add_filters filters [] = filters
  add_filters filters ((t, s) ∷ cs) = add_filters (add_filter names filters t s) cs

  -- Some filter that was added has the type, is accepted, and its pattern matches the name.
  abbrev pub some_matches : List (FilterType × Name) → FilterType → Name → Bool
  some_matches [] t s = false
  some_matches ((t', p) ∷ cs) t s =
      (same_type t' t && not (names.is_absolute p) && names.pattern_match p s)
      || some_matches cs t s

  matches_filter-add_filter :
      (filters : List (PatternData Name)) (t t' : FilterType) (p s : Name)
      → same_type t filter_parent_directory ≡ false
      → matches_filter names (add_filter names filters t' p) t s ≡ (
          (same_type t' t && not (names.is_absolute p) && names.pattern_match p s)
          || matches_filter names filters t s)
  unfolding matches_filter add_filter
  matches_filter-add_filter filters t filter_file p s h = ground arith
  matches_filter-add_filter filters t filter_directory p s h = ground arith
  matches_filter-add_filter filters filter_file filter_parent_directory p s h = ground arith
  matches_filter-add_filter filters filter_directory filter_parent_directory p s h = ground arith
  matches_filter-add_filter filters filter_parent_directory filter_parent_directory p s h = cc

  matches_filter-add_filters :
      (filters : List (PatternData Name)) (cs : List (FilterType × Name)) (t : FilterType)
      (s : Name)
      → same_type t filter_parent_directory ≡ false
      → matches_filter names (add_filters filters cs) t s
        ≡ (some_matches cs t s || matches_filter names filters t s)
  unfolding add_filters
  matches_filter-add_filters filters [] t s h = refl
  matches_filter-add_filters filters ((t', p) ∷ cs) t s h = ground (
    arith,
    matches_filter-add_filters (add_filter names filters t' p) cs t s h,
    matches_filter-add_filter filters t t' p s h,
  )

  -- For files and for directories, a file matches a filter of a type if and only if some filter of the
  -- type was added whose pattern is not an absolute path and matches the file's base name, whatever
  -- the order.
  pub file_matches_filter-added :
      (cs : List (FilterType × Name)) (t : FilterType) (f : File)
      → same_type t filter_parent_directory ≡ false
      → file_matches_filter names (add_filters [] cs) t f ≡ some_matches cs t (names.get_basename f)
  unfolding matches_filter
  file_matches_filter-added cs t f h =
      ground (arith, matches_filter-add_filters [] cs t (names.get_basename f) h)
