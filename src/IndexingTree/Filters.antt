-- ===== src/IndexingTree/Filters.antt =====
-- The filters of src/miners/fs/tracker-indexing-tree.c, and which files they leave to be indexed.
pub mod Clearing
pub mod Matching
pub mod Indexable
use tracker_miners.Base.{
  ℕ, zero, suc, Bool, true, false, not, ◌&&◌, ◌||◌, Option, none, some, List, [], ◌∷◌, ◌++◌,
  is_some, if◌then◌else◌, ◌==◌, Eq, length,
}
use tracker_miners.Base.Files.{FileOps, file_Eq, has_prefix, has_parent}
use tracker_miners.IndexingTree.{GNode, get_root, flag_recurse, flag_ignore}

pub data FilterType : Type 0 where
  filter_file filter_directory filter_parent_directory : FilterType

abbrev pub same_type : FilterType → FilterType → Bool
same_type filter_file filter_file = true
same_type filter_directory filter_directory = true
same_type filter_parent_directory filter_parent_directory = true
same_type _ _ = false

-- What the code uses of GLib's strings and patterns: g_path_is_absolute, a search for a `*`,
-- g_pattern_spec_match, and the base name of a file as valid UTF-8.
pub record NameOps (File Name : Type 0) : Type 0 where
  pub name_eq : Eq Name
  pub is_absolute : Name → Bool
  pub has_star : Name → Bool
  pub pattern_match : Name → Name → Bool
  pub get_basename : File → Name

pub record PatternData (Name : Type 0) : Type 0 where
  pub pattern : Option Name
  pub string : Option Name
  pub type : FilterType

pub record FileInfo : Type 0 where
  pub is_directory : Bool
  pub is_hidden : Bool

abbrev pub filter_of : Option FileInfo → FilterType
filter_of none = filter_file
filter_of (some i) = if i.is_directory then filter_directory else filter_file

module _ {Name : Type 0} where
  abbrev pub pattern_data_new : Name → FilterType → PatternData Name
  pattern_data_new s filter_parent_directory = record {
    pattern = none;
    string = some s;
    type = filter_parent_directory;
  }
  pattern_data_new s t = record { pattern = some s; string = none; type = t }

  -- The loop of tracker_indexing_tree_clear_filters, at a link with those before and after it. After
  -- a deletion it goes on behind the head of the list; with no head it reads through NULL, a fault,
  -- which is `none`. The first argument bounds the number of deletions.
  unfoldable pub clear_loop :
      ℕ
      → FilterType
      → List (PatternData Name)
      → List (PatternData Name)
      → Option (List (PatternData Name))
  clear_loop fuel t before [] = some before
  clear_loop zero t before (x ∷ after) = none
  clear_loop (suc fuel) t before (x ∷ after) = elim (same_type x.type t) [
    | false ↦ clear_loop (suc fuel) t (before ++ x ∷ []) after
    | true ↦ elim (before ++ after) [ [] ↦ none | head ∷ rest ↦ clear_loop fuel t (head ∷ []) rest ]
  ]

  unfoldable pub clear_filters :
      List (PatternData Name) → FilterType → Option (List (PatternData Name))
  clear_filters filters t = clear_loop (suc (length filters)) t [] filters

module _ {File Name : Type 0} ⦃ops : FileOps File⦄ (names : NameOps File Name) where
  unfoldable pub add_filter : List (PatternData Name) → FilterType → Name → List (PatternData Name)
  add_filter filters t s =
      if names.is_absolute s
      then filters
      else if same_type t filter_parent_directory && names.has_star s
      then filters
      else pattern_data_new s t ∷ filters

  -- the loop of tracker_indexing_tree_file_matches_filter
  unfoldable pub matches_filter : List (PatternData Name) → FilterType → Name → Bool
  matches_filter [] t s = false
  matches_filter (x ∷ xs) t s =
      let rest = matches_filter xs t s in
      if same_type x.type t
      then elim x.pattern [
        | none ↦ elim x.string [ none ↦ false | some r ↦ names.name_eq.same s r ]
        | some p ↦ if names.pattern_match p s then true else rest
      ]
      else rest

  abbrev pub file_matches_filter : List (PatternData Name) → FilterType → File → Bool
  file_matches_filter filters t f = matches_filter filters t (names.get_basename f)

  -- the test at the end of tracker_indexing_tree_file_is_indexable, for a root with its flags
  abbrev pub in_root : File → Option FileInfo → Bool → File × ℕ → Bool
  in_root f info filter_hidden (root, flags) =
      if flag_ignore flags
      then false
      else if f == root
      then true
      else if not (flag_recurse flags) && not (has_parent f root)
      then false
      else not (filter_hidden && is_hidden_info info)
    where
      is_hidden_info : Option FileInfo → Bool
      is_hidden_info none = false
      is_hidden_info (some i) = i.is_hidden

  -- tracker_indexing_tree_file_is_indexable. `info` is the caller's, or what g_file_query_info gives.
  unfoldable pub file_is_indexable :
      GNode File → List (PatternData Name) → Bool → File → Option FileInfo → Bool
  file_is_indexable tree filters filter_hidden f info = elim (get_root tree f) [
    | none ↦ false
    | some r ↦
        if file_matches_filter filters (filter_of info) f
        then false
        else in_root f info filter_hidden r
  ]

  -- tracker_indexing_tree_parent_is_indexable; `exists` is g_file_query_exists of the parent's child
  -- of that name
  unfoldable pub parent_is_indexable : List (PatternData Name) → (Name → Bool) → Bool
  parent_is_indexable [] exists = true
  parent_is_indexable (x ∷ xs) exists =
      let rest = parent_is_indexable xs exists in
      if same_type x.type filter_parent_directory
      then elim x.string [ none ↦ rest | some s ↦ if exists s then false else rest ]
      else rest
