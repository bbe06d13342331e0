-- ===== src/IndexingTree/Roots.antt =====
-- What tracker_indexing_tree_get_root answers, against the table of the directories.
use tracker_miners.Base.{
  ℕ, ◌≡◌, subst, refl, sym, inl, inr, true, false, not, ◌&&◌, Option, none, some, List, [], ◌==◌,
  ==_refl, arith, Bool-cases, Option-cases, Table, lookup,
}
use tracker_miners.Base.Files.{FileOps, file_Eq}
use tracker_miners.IndexingTree.{NodeData, GNode, find_node, parent_or_equals, get_root}
use tracker_miners.IndexingTree.Configured.{new_tree, has_flags, entry, IsConfigured}
use tracker_miners.IndexingTree.Nearest.{missed, find_node-deepest}
use tracker_miners.IndexingTree.Counts.{
  count_nodes, of_file, find_node-count, find_node-none-count, count_mono, count_split,
  count_distinct,
}
use tracker_miners.IndexingTree.Nearest.{missed, find_node-deepest}
use tracker_miners.IndexingTree.Runs.{Call, run, run_config, AllAllowed, run-new-IsConfigured}

module _ {File : Type 0} ⦃ops : FileOps File⦄ where
  -- The nearest of the directories that are configured, among the file and its ancestors.
  abbrev pub IsNearest : Table File ℕ → File → Option (File × ℕ) → Type 0
  IsNearest config f none =
      (g : File) (k : ℕ) → lookup g config ≡ some k → parent_or_equals f g ≡ false
  IsNearest config f (some (d, flags)) =
      (lookup d config ≡ some flags)
      × (parent_or_equals f d ≡ true)
      × ((g : File) (k : ℕ)
          → lookup g config ≡ some k
          → parent_or_equals f g ≡ true
          → parent_or_equals d g ≡ true)

  module _ (root : File) (tree : GNode File) (config : Table File ℕ)
      (c : IsConfigured root tree config) (f : File) where
    entry_counted : (g : File) (k : ℕ) → lookup g config ≡ some k → count_nodes (entry g k) tree ≡ 1
    entry_counted g k h = ground (arith, h, c.entries g k)

    IsNearest-none : find_node (parent_or_equals f) tree ≡ none → IsNearest config f none
    IsNearest-none e g k h = elim (Bool-cases (parent_or_equals f g)) [
      | inr n ↦ n
      | inl y ↦ absurd (omega (arith, entry_counted g k h, none_there y))
    ]
      where
        none_there : parent_or_equals f g ≡ true → count_nodes (entry g k) tree ≡ 0
        none_there y =
            find_node-none-count (entry g k) (parent_or_equals f) tree e
              (λ x p. ground (arith, y, p, ops.eq.same_iff g x.file))

    module _ (d : NodeData File) (e : find_node (parent_or_equals f) tree ≡ some d) where
      -- a directory that contains the file contains the node found
      nearest_above :
          (g : File) (k : ℕ)
          → lookup g config ≡ some k
          → parent_or_equals f g ≡ true
          → parent_or_equals d.file g ≡ true
      nearest_above g k h y = elim (Bool-cases (parent_or_equals d.file g)) [
        | inl above ↦ above
        | inr n ↦ absurd (
            omega (
              arith,
              entry_counted g k h,
              find_node-deepest f tree d c.nested e,
              count_mono (entry g k) (missed f d) tree
                  (λ x p. ground (arith, n, y, p, ops.eq.same_iff g x.file)),
            ))
      ]

      -- the node found is configured, unless it is the root's
      found_entry : d.shallow ≡ false → lookup d.file config ≡ some d.flags
      found_entry n = ground (
        arith,
        n,
        c.entries d.file d.flags,
        ==_refl d.file,
        (find_node-count (entry d.file d.flags) (parent_or_equals f) tree d e).1,
      )

      shallow_root : d.shallow ≡ true → (root == d.file) ≡ true
      shallow_root y =
          let part =
            (find_node-count (λ x. x.shallow && not (root == x.file)) (parent_or_equals f) tree d
              e).1 in
          ground (arith, y, part, c.exposed)

      -- all directories are at or below the root
      entry_inside : (g : File) (k : ℕ) → lookup g config ≡ some k → parent_or_equals g root ≡ true
      entry_inside g k h = elim (Bool-cases (parent_or_equals g root)) [
        | inl y ↦ y
        | inr n ↦ absurd (
            omega (
              arith,
              entry_counted g k h,
              c.inside,
              count_mono (entry g k) (λ x. not (parent_or_equals x.file root)) tree
                  (λ x p. ground (arith, n, p, ops.eq.same_iff g x.file)),
            ))
      ]

      -- the root's node is not configured while it is shallow
      shallow_absent :
          d.shallow ≡ true → (g : File) (k : ℕ) → lookup g config ≡ some k → (g == d.file) ≡ false
      shallow_absent y g k h = elim (Bool-cases (g == d.file)) [
        | inr n ↦ n
        | inl same ↦
            let other =
              (find_node-count (λ x. g == x.file && not (has_flags k x)) (parent_or_equals f) tree d
                e).1 in
            absurd (
              ground (
                arith,
                y,
                same,
                other,
                entry_counted g k h,
                count_distinct g tree c.nested,
                count_split (of_file g) (has_flags k) tree,
              ))
      ]

      shallow_none : d.shallow ≡ true → IsNearest config f none
      shallow_none y g k h = elim (Bool-cases (parent_or_equals f g)) [
        | inr n ↦ n
        | inl up ↦ absurd (
            ground (
              arith,
              nearest_above g k h up,
              entry_inside g k h,
              shallow_root y,
              shallow_absent y g k h,
              ops.eq.same_iff root d.file,
              ops.eq.same_iff d.file g,
              ops.eq.same_iff g root,
              ops.eq.same_iff g d.file,
              ops.prefix_irrefl g,
              ops.prefix_trans g root g,
            ))
      ]

      IsNearest-some : d.shallow ≡ false → IsNearest config f (some (d.file, d.flags))
      IsNearest-some n = (
        found_entry n,
        (find_node-count (λ x. true) (parent_or_equals f) tree d e).0,
        nearest_above,
      )

    get_root-none : find_node (parent_or_equals f) tree ≡ none → get_root tree f ≡ none
    unfolding get_root
    get_root-none e = rw (e, get_root) refl

    get_root_shallow :
        (d : NodeData File)
        → find_node (parent_or_equals f) tree ≡ some d
        → d.shallow ≡ true
        → get_root tree f ≡ none
    unfolding get_root
    get_root_shallow d e y = ground (arith, e, y)

    get_root-some :
        (d : NodeData File)
        → find_node (parent_or_equals f) tree ≡ some d
        → d.shallow ≡ false
        → get_root tree f ≡ some (d.file, d.flags)
    unfolding get_root
    get_root-some d e n =
        ground (arith, e, n, (find_node-count (λ x. true) (parent_or_equals f) tree d e).0)

    get_root-IsNearest : IsNearest config f (get_root tree f)
    get_root-IsNearest = elim (Option-cases (find_node (parent_or_equals f) tree)) [
      | inl e ↦ subst (IsNearest config f) (sym (get_root-none e)) (IsNearest-none e)
      | inr (d, e) ↦ elim (Bool-cases d.shallow) [
        | inl y ↦ subst (IsNearest config f) (sym (get_root_shallow d e y)) (shallow_none d e y)
        | inr n ↦ subst (IsNearest config f) (sym (get_root-some d e n)) (IsNearest-some d e n)
      ]
    ]

  -- After additions of directories at or below the root and removals of others than the root, the root
  -- given for a file is the nearest that is configured among the file and its ancestors, with the flags
  -- that it was last added with; none is given if none of them is configured.
  pub get_root-run :
      (root : File) (cs : List (Call File)) (f : File)
      → AllAllowed root cs
      → IsNearest (run_config [] cs) f (get_root (run (new_tree root) cs) f)
  get_root-run root cs f a =
      get_root-IsNearest root (run (new_tree root) cs) (run_config [] cs)
        (run-new-IsConfigured root cs a) f
