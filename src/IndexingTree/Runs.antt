-- ===== src/IndexingTree/Runs.antt =====
-- Any additions and removals of directories, from the new tree.
use tracker_miners.Base.{
  ℕ, ◌≡◌, refl, true, false, List, [], ◌∷◌, ◌==◌, ==_refl, arith, Table, lookup, insert, remove_key,
}
use tracker_miners.Base.Files.{FileOps, file_Eq}
use tracker_miners.IndexingTree.{GNode, parent_or_equals, add, remove}
use tracker_miners.IndexingTree.Configured.{new_tree, IsConfigured, add-IsConfigured}
use tracker_miners.IndexingTree.Counts.{count_nodes}
use tracker_miners.IndexingTree.Unlinks.{
  is_single, is_single-add, is_single-remove, remove-IsConfigured,
}

pub data Call (File : Type 0) : Type 0 where
  adds : File → ℕ → Call File
  removes : File → Call File

module _ {File : Type 0} ⦃ops : FileOps File⦄ where
  abbrev pub step : GNode File → Call File → GNode File
  step tree (adds f k) = (add tree f k).0
  step tree (removes f) = (remove tree f).0

  abbrev pub step_config : Table File ℕ → Call File → Table File ℕ
  step_config config (adds f k) = insert f k config
  step_config config (removes f) = remove_key f config

  abbrev pub Allowed : File → Call File → Type 0
  Allowed root (adds f k) = parent_or_equals f root ≡ true
  Allowed root (removes f) = (f == root) ≡ false

  step-IsConfigured :
      (root : File) (tree : GNode File) (config : Table File ℕ) (c : Call File)
      → is_single tree ≡ true
      → IsConfigured root tree config
      → Allowed root c
      → (is_single (step tree c) ≡ true) × IsConfigured root (step tree c) (step_config config c)
  step-IsConfigured root tree config (adds f k) s c a =
      (is_single-add tree f k s, add-IsConfigured root f k tree config c a)
  step-IsConfigured root tree config (removes f) s c a =
      (is_single-remove tree f s, remove-IsConfigured root f tree config s c a)

  unfoldable pub run : GNode File → List (Call File) → GNode File
  run tree [] = tree
  run tree (c ∷ cs) = run (step tree c) cs

  abbrev pub run_config : Table File ℕ → List (Call File) → Table File ℕ
  run_config config [] = config
  run_config config (c ∷ cs) = run_config (step_config config c) cs

  abbrev pub AllAllowed : File → List (Call File) → Type 0
  AllAllowed root [] = Unit {0}
  AllAllowed root (c ∷ cs) = Allowed root c × AllAllowed root cs

  run-IsConfigured :
      (root : File) (tree : GNode File) (config : Table File ℕ) (cs : List (Call File))
      → is_single tree ≡ true
      → IsConfigured root tree config
      → AllAllowed root cs
      → IsConfigured root (run tree cs) (run_config config cs)
  unfolding run
  run-IsConfigured root tree config [] s c a = c
  run-IsConfigured root tree config (x ∷ xs) s c (a, bs) =
      let next = step-IsConfigured root tree config x s c a in
      run-IsConfigured root (step tree x) (step_config config x) xs next.0 next.1 bs

  new-IsConfigured : (root : File) → IsConfigured root (new_tree root) []
  unfolding count_nodes lookup
  new-IsConfigured root = record {
    nested = (tt, tt, tt, tt);
    top = ==_refl root;
    inside = ground (arith, ==_refl root);
    exposed = ground (arith, ==_refl root);
    settled = omega arith;
    entries = λ g j. ground arith;
  }

  -- After additions of directories at or below the root and removals of others than the root, the tree
  -- is nested, and its nodes other than the root are the directories that are configured, each with the
  -- flags that it was last added with.
  pub run-new-IsConfigured :
      (root : File) (cs : List (Call File))
      → AllAllowed root cs
      → IsConfigured root (run (new_tree root) cs) (run_config [] cs)
  run-new-IsConfigured root cs a =
      run-IsConfigured root (new_tree root) [] cs refl (new-IsConfigured root) a
