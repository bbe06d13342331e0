-- ===== src/IndexingTree/Listing.antt =====
-- Which directories tracker_indexing_tree_list_roots lists.
use tracker_miners.Base.{
  count, ℕ, ◌+◌, ◌≤◌, ◌≡◌, refl, inl, inr, Bool, not, ◌&&◌, List, [], ◌∷◌, is_some, ◌==◌, arith,
  Option-cases, Table, lookup,
}
use tracker_miners.Base.Files.{FileOps, file_Eq}
use tracker_miners.IndexingTree.{NodeData, GNode, null, gnode, list_roots}
use tracker_miners.IndexingTree.Configured.{new_tree, entry, IsConfigured}
use tracker_miners.IndexingTree.Counts.{
  count_nodes, one_if, of_file, count_mono, count_split, count_distinct,
}
use tracker_miners.IndexingTree.Runs.{Call, run, run_config, AllAllowed, run-new-IsConfigured}

module _ {File : Type 0} ⦃ops : FileOps File⦄ where
  abbrev listed : File → NodeData File → Bool
  listed f x = f == x.file && (not x.shallow && not x.removing)

  count-list_roots :
      (f : File) (tree : GNode File) (roots : List File)
      → count (◌==◌ f) (list_roots tree roots) ≡ count (◌==◌ f) roots + count_nodes (listed f) tree
  unfolding list_roots count_nodes
  count-list_roots f null roots = omega arith
  count-list_roots f (gnode d cs ns) roots = ground (
    arith,
    count-list_roots f cs roots,
    count-list_roots f ns (list_roots cs roots),
    count-list_roots f ns (d.file ∷ list_roots cs roots),
  )

  -- without an entry of any flags, a tree lists nothing of the file
  unlisted :
      (f : File) (tree : GNode File)
      → ((k : ℕ) → count_nodes (entry f k) tree ≡ 0)
      → count_nodes (listed f) tree ≡ 0
  unfolding count_nodes
  unlisted f null h = refl
  unlisted f (gnode d cs ns) h = ground (
    arith,
    h d.flags,
    unlisted f cs (λ k. omega (arith, h k)),
    unlisted f ns (λ k. omega (arith, h k)),
  )

  listed_once :
      (root f : File) (tree : GNode File) (config : Table File ℕ)
      → IsConfigured root tree config
      → count_nodes (listed f) tree ≡ one_if (is_some (lookup f config))
  listed_once root f tree config c = elim (Option-cases (lookup f config)) [
    | inl e ↦ rw e (unlisted f tree (λ k. ground (arith, e, c.entries f k)))
    | inr (k, e) ↦ ground (
      arith,
      e,
      c.entries f k,
      c.settled,
      count_distinct f tree c.nested,
      count_split (entry f k) (λ x. x.removing) tree,
      none_removing k,
      some_listed k,
      count_mono (listed f) (of_file f) tree (λ x p. ground (arith, p)),
    )
  ]
    where
      none_removing :
          (k : ℕ)
          → count_nodes (λ x. entry f k x && x.removing) tree ≤ count_nodes (λ x. x.removing) tree
      none_removing k =
          count_mono (λ x. entry f k x && x.removing) (λ x. x.removing) tree
            (λ x p. ground (arith, p))

      some_listed :
          (k : ℕ)
          → count_nodes (λ x. entry f k x && not x.removing) tree ≤ count_nodes (listed f) tree
      some_listed k =
          count_mono (λ x. entry f k x && not x.removing) (listed f) tree (λ x p. ground (arith, p))

  -- After additions of directories at or below the root and removals of others than the root,
  -- list_roots lists every directory that is configured once, and no other.
  pub list_roots-run :
      (root : File) (cs : List (Call File)) (f : File)
      → AllAllowed root cs
      → count (◌==◌ f) (list_roots (run (new_tree root) cs) [])
        ≡ one_if (is_some (lookup f (run_config [] cs)))
  list_roots-run root cs f a = omega (
    arith,
    count-list_roots f (run (new_tree root) cs) [],
    listed_once root f (run (new_tree root) cs) (run_config [] cs) (run-new-IsConfigured root cs a),
  )
