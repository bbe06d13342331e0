-- ===== src/IndexingTree/Examples.antt =====
-- A tree of three directories, and the theorems at it.
use tracker_miners.Base.{
  ℕ, ◌≡◌, ◌↔◌, refl, true, ◌||◌, none, some, List, [], ◌∷◌, count, ◌==◌, nat_eq, ℕ_Eq, is_some,
  lookup,
}
use tracker_miners.Samples.{Location, location_ops, location_Eq}
use tracker_miners.IndexingTree.{
  GNode, find_node, change_node, append, siblings, unlink_node, add, remove, get_root, list_roots,
}
use tracker_miners.IndexingTree.Counts.{one_if}
use tracker_miners.IndexingTree.Configured.{new_tree}
use tracker_miners.IndexingTree.Runs.{Call, adds, removes, run, run_config, AllAllowed}
use tracker_miners.IndexingTree.Roots.{IsNearest, get_root-run}
use tracker_miners.IndexingTree.Listing.{list_roots-run}
use tracker_miners.IndexingTree.Filters.{
  FilterType, filter_file, filter_directory, PatternData, NameOps, pattern_data_new,
  file_matches_filter, clear_filters, clear_loop, file_is_indexable,
}
use tracker_miners.IndexingTree.Filters.Clearing.{cleared, clear_filters-cleared}
use tracker_miners.IndexingTree.Filters.Matching.{
  add_filters, some_matches, file_matches_filter-added,
}
use tracker_miners.IndexingTree.Filters.Indexable.{IndexableIn, file_is_indexable-nearest}

-- home, its folder 1, and the folder 2 in that
abbrev home : Location
home = 7 ∷ []

abbrev folder : Location
folder = 1 ∷ home

abbrev inner : Location
inner = 2 ∷ folder

-- the folder comes after what is below it, and another child of home is removed again
abbrev calls : List (Call Location)
calls = adds home 2 ∷ adds inner 16 ∷ adds folder 10 ∷ adds (3 ∷ home) 2 ∷ removes (3 ∷ home) ∷ []

abbrev tree : GNode Location
tree = run (new_tree []) calls

calls_allowed : AllAllowed [] calls
calls_allowed = (refl, (refl, (refl, (refl, (refl, tt)))))

folder_root : get_root tree (5 ∷ folder) ≡ some (folder, 10)
unfolding run get_root find_node add change_node append siblings remove unlink_node
folder_root = refl

home_roots : list_roots tree [] ≡ home ∷ folder ∷ inner ∷ []
unfolding run list_roots find_node add change_node append siblings remove unlink_node
home_roots = refl

abbrev added_again : GNode Location
added_again = run (new_tree []) (adds [] 2 ∷ removes [] ∷ adds [] 2 ∷ [])

-- the root, once it was removed and added again, is not listed
root_unlisted : list_roots added_again [] ≡ []
unfolding run list_roots find_node add change_node remove
root_unlisted = refl

abbrev names : NameOps Location ℕ
names = record {
  name_eq = ℕ_Eq;
  is_absolute = λ n. nat_eq n 0;
  has_star = λ n. nat_eq n 99;
  pattern_match = λ p s. nat_eq p s || nat_eq p 99;
  get_basename = λ f. elim f [ [] ↦ 0 | x ∷ xs ↦ x ];
}

abbrev filters : List (FilterType × ℕ)
filters = (filter_file, 4) ∷ (filter_directory, 5) ∷ (filter_file, 6) ∷ []

abbrev patterns : List (PatternData ℕ)
patterns =
    pattern_data_new 4 filter_file
    ∷ pattern_data_new 5 filter_file
    ∷ pattern_data_new 6 filter_directory
    ∷ []

-- one of the two filters for files is still there
file_filter_left :
    clear_filters patterns filter_file
    ≡ some (pattern_data_new 5 filter_file ∷ pattern_data_new 6 filter_directory ∷ [])
unfolding clear_filters clear_loop
file_filter_left = refl

get_root-run_example : IsNearest (run_config [] calls) (5 ∷ folder) (get_root tree (5 ∷ folder))
get_root-run_example = get_root-run [] calls (5 ∷ folder) calls_allowed

list_roots-run_example :
    count (◌==◌ inner) (list_roots tree []) ≡ one_if (is_some (lookup inner (run_config [] calls)))
list_roots-run_example = list_roots-run [] calls inner calls_allowed

clear_filters-cleared_example : clear_filters patterns filter_file ≡ cleared patterns filter_file
clear_filters-cleared_example = clear_filters-cleared patterns filter_file

file_matches_filter-added_example :
    file_matches_filter names (add_filters names [] filters) filter_file (6 ∷ folder)
    ≡ some_matches names filters filter_file 6
file_matches_filter-added_example =
    file_matches_filter-added names filters filter_file (6 ∷ folder) refl

file_is_indexable-nearest_example :
    (file_is_indexable names tree (add_filters names [] filters) true (9 ∷ folder) none ≡ true) ↔ (
      (r : Location × ℕ) × IndexableIn names (run_config [] calls) filters true (9 ∷ folder) none r)
file_is_indexable-nearest_example =
    file_is_indexable-nearest names [] calls filters true (9 ∷ folder) none calls_allowed
