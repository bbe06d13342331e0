-- ===== src/IndexingTree/Filters/Indexable.antt =====
-- Which files are indexable, against the directories that are configured.
use tracker_miners.Base.{
  ℕ, refl, ◌⊎◌, Bool-cases, ◌≡◌, ◌↔◌, inl, inr, ap, sym, ◌∙◌, subst, Bool, true, false, not, ◌&&◌,
  Option, none, some, List, [], arith, Option-cases, Table, lookup,
}
use tracker_miners.Base.Files.{FileOps, file_Eq, has_parent}
use tracker_miners.IndexingTree.{GNode, get_root, flag_ignore, flag_recurse}
use tracker_miners.IndexingTree.Configured.{new_tree}
use tracker_miners.IndexingTree.Runs.{Call, run, run_config, AllAllowed}
use tracker_miners.IndexingTree.Roots.{IsNearest, get_root-run}
use tracker_miners.IndexingTree.Filters.{
  FilterType, filter_file, filter_directory, PatternData, FileInfo, NameOps, file_matches_filter,
  filter_of, in_root, file_is_indexable,
}
use tracker_miners.IndexingTree.Filters.Matching.{
  add_filters, some_matches, file_matches_filter-added,
}

module _ {File : Type 0} ⦃ops : FileOps File⦄ where
  nearest_unique :
      (config : Table File ℕ) (f d e : File) (j k : ℕ)
      → IsNearest config f (some (d, j))
      → IsNearest config f (some (e, k))
      → (d ≡ e) × (j ≡ k)
  nearest_unique config f d e j k (a, b, c) (a', b', c') =
      (same, option_same (sym a ∙ ap (λ g. lookup g config) same ∙ a'))
    where
      same : d ≡ e
      same = ground (
        arith,
        c e k a' b',
        c' d j a b,
        ops.prefix_trans d e d,
        ops.prefix_irrefl d,
        ops.eq.same_iff d e,
        ops.eq.same_iff e d,
      )

      option_same : some j ≡ some k → j ≡ k
      option_same p = cc

  IsNearest-not_none :
      (config : Table File ℕ) (f d : File) (k : ℕ)
      → IsNearest config f (some (d, k))
      → ¬ IsNearest config f none
  IsNearest-not_none config f d k (a, b, c) n = cc (b, n d k a)

  get_root_unique :
      (config : Table File ℕ) (f : File) (o : Option (File × ℕ)) (d : File) (k : ℕ)
      → IsNearest config f o
      → IsNearest config f (some (d, k))
      → o ≡ some (d, k)
  get_root_unique config f none d k a b = absurd (IsNearest-not_none config f d k b a)
  get_root_unique config f (some (e, j)) d k a b =
      let same = nearest_unique config f e d j k a b in ground (arith, same)

-- whether the information on a file, if there is any, is that it is hidden
abbrev pub known_hidden : Option FileInfo → Bool
known_hidden none = false
known_hidden (some i) = i.is_hidden

module _ {File Name : Type 0} ⦃ops : FileOps File⦄ (names : NameOps File Name) where
  -- A directory with its flags takes a file: it is not ignored, and the file is the directory itself, or
  -- else it is a direct child or the directory is recursive, and it is not a hidden file while hidden
  -- files are filtered.
  abbrev pub IsTaken : File → Option FileInfo → Bool → File → ℕ → Type 0
  IsTaken f info hidden d flags =
      (flag_ignore flags ≡ false)
      × ((f ≡ d)
          ⊎ (((flag_recurse flags ≡ true) ⊎ (has_parent f d ≡ true))
              × ((hidden ≡ false) ⊎ (known_hidden info ≡ false))))

  -- the nearest configured directory takes the file, and no filter that was added for its type matches
  abbrev pub IndexableIn :
      Table File ℕ → List (FilterType × Name) → Bool → File → Option FileInfo → File × ℕ → Type 0
  IndexableIn config added hidden f info (d, flags) =
      IsNearest config f (some (d, flags))
      × (some_matches names added (filter_of info) (names.get_basename f) ≡ false)
      × IsTaken f info hidden d flags

  in_root-IsTaken :
      (f : File) (info : Option FileInfo) (hidden : Bool) (d : File) (flags : ℕ)
      → (in_root names f info hidden (d, flags) ≡ true) ↔ IsTaken f info hidden d flags
  in_root-IsTaken f none hidden d flags = ground (arith, ops.eq.same_iff f d)
  in_root-IsTaken f (some i) hidden d flags = ground (arith, ops.eq.same_iff f d)

  matches-added :
      (added : List (FilterType × Name)) (f : File) (info : Option FileInfo)
      → file_matches_filter names (add_filters names [] added) (filter_of info) f
        ≡ some_matches names added (filter_of info) (names.get_basename f)
  matches-added added f none = file_matches_filter-added names added filter_file f refl
  matches-added added f (some i) = elim (Bool-cases i.is_directory) [
    | inl e ↦ ground (arith, e, file_matches_filter-added names added filter_directory f refl)
    | inr e ↦ ground (arith, e, file_matches_filter-added names added filter_file f refl)
  ]

  indexable_from :
      (tree : GNode File) (filters : List (PatternData Name)) (hidden : Bool) (f : File)
      (info : Option FileInfo) (r : File × ℕ)
      → get_root tree f ≡ some r
      → file_is_indexable names tree filters hidden f info ≡ (
          not (file_matches_filter names filters (filter_of info) f)
          && in_root names f info hidden r)
  unfolding file_is_indexable
  indexable_from tree filters hidden f info r h = ground (arith, h)

  not_indexable :
      (tree : GNode File) (filters : List (PatternData Name)) (hidden : Bool) (f : File)
      (info : Option FileInfo)
      → get_root tree f ≡ none
      → file_is_indexable names tree filters hidden f info ≡ false
  unfolding file_is_indexable
  not_indexable tree filters hidden f info h = ground (arith, h)

  -- After additions of directories at or below the root and removals of others than the root, and after
  -- additions of filters, a file is indexable if and only if a directory is configured among the file
  -- and its ancestors, no filter that was added for the file's type matches its base name, and the
  -- nearest of these directories takes it: it is not ignored, and the file is the directory itself, or
  -- else it is a direct child or the directory is recursive, and it is not a hidden file that is
  -- filtered.
  pub file_is_indexable-nearest :
      (root : File) (cs : List (Call File)) (added : List (FilterType × Name)) (hidden : Bool)
      (f : File) (info : Option FileInfo)
      → AllAllowed root cs
      → (file_is_indexable names (run (new_tree root) cs) (add_filters names [] added) hidden f info
          ≡ true)
        ↔ ((r : File × ℕ) × IndexableIn (run_config [] cs) added hidden f info r)
  file_is_indexable-nearest root cs added hidden f info a = (to, from)
    where
      tree : GNode File
      tree = run (new_tree root) cs

      filters : List (PatternData Name)
      filters = add_filters names [] added

      nearest : IsNearest (run_config [] cs) f (get_root tree f)
      nearest = get_root-run root cs f a

      to :
          file_is_indexable names tree filters hidden f info ≡ true
          → (r : File × ℕ) × IndexableIn (run_config [] cs) added hidden f info r
      to h = elim (Option-cases (get_root tree f)) [
        | inl e ↦ cc (h, not_indexable tree filters hidden f info e)
        | inr (r, e) ↦
            let same = indexable_from tree filters hidden f info r e in
            (
              r,
              (
                subst (IsNearest (run_config [] cs) f) e nearest,
                sym (matches-added added f info) ∙ ground (arith, h, same),
                (in_root-IsTaken f info hidden r.0 r.1).0 (ground (arith, h, same)),
              ),
            )
      ]

      from :
          ((r : File × ℕ) × IndexableIn (run_config [] cs) added hidden f info r)
          → file_is_indexable names tree filters hidden f info ≡ true
      from ((d, k), (n, m, taken)) =
          let e = get_root_unique (run_config [] cs) f (get_root tree f) d k nearest n in
          let inside = (in_root-IsTaken f info hidden d k).1 taken in
          ground (
            arith,
            indexable_from tree filters hidden f info (d, k) e,
            matches-added added f info,
            m,
            inside,
          )
