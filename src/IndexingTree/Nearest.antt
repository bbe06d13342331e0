-- ===== src/IndexingTree/Nearest.antt =====
-- The search of tracker_indexing_tree_get_root in a nested tree.
use tracker_miners.Base.{
  ◌≡◌, refl, Bool, true, false, not, ◌&&◌, none, some, ==_refl, arith, Option-cases,
}
use tracker_miners.Base.Files.{FileOps, file_Eq, has_prefix}
use tracker_miners.IndexingTree.{NodeData, GNode, null, gnode, find_node, parent_or_equals}
use tracker_miners.IndexingTree.Nested.{AllUnder, AllApart, IsNested}
use tracker_miners.IndexingTree.Counts.{count_nodes, find_node-count, find_node-none-count}

module _ {File : Type 0} ⦃ops : FileOps File⦄ where
  pub parent_or_equals_trans :
      (f g h : File)
      → parent_or_equals f g ≡ true
      → parent_or_equals g h ≡ true
      → parent_or_equals f h ≡ true
  parent_or_equals_trans f g h p q =
      ground (arith, p, q, ops.prefix_trans f g h, ops.eq.same_iff f g, ops.eq.same_iff g h)

  find_under :
      (p : File) (test : File → Bool) (ns : GNode File) (d : NodeData File)
      → AllUnder p ns
      → IsNested ns
      → find_node test ns ≡ some d
      → has_prefix d.file p ≡ true
  unfolding find_node
  find_under p test null d u n h = cc
  find_under p test (gnode e cs ns) d u n h = ground (
    arith,
    u,
    n,
    h,
    Option-cases (find_node test cs),
    find_under p test ns d,
    find_under e.file test cs d,
    ops.prefix_trans d.file e.file p,
  )

  module _ (f : File) where
    abbrev pub containing : NodeData File → Bool
    containing x = parent_or_equals f x.file

    containing_under :
        (p : File) (ns : GNode File)
        → AllUnder p ns
        → IsNested ns
        → has_prefix f p ≡ false
        → count_nodes containing ns ≡ 0
    unfolding count_nodes
    containing_under p null u n h = refl
    containing_under p (gnode d cs ns) u n h = ground (
      arith,
      u,
      n,
      h,
      containing_under p ns,
      containing_under d.file cs,
      ops.prefix_trans f d.file p,
      ops.eq.same_iff f d.file,
    )

    containing_apart :
        (p : File) (ns : GNode File)
        → AllApart p ns
        → IsNested ns
        → parent_or_equals f p ≡ true
        → count_nodes containing ns ≡ 0
    unfolding count_nodes
    containing_apart p null u n h = refl
    containing_apart p (gnode d cs ns) u n h = ground (
      arith,
      u,
      n,
      h,
      containing_apart p ns,
      containing_under d.file cs,
      ops.prefix_chain f d.file p,
      ops.eq.same_iff f d.file,
      ops.eq.same_iff f p,
      ops.eq.same_iff p d.file,
    )

    -- the nodes that contain the file, and not the one found
    abbrev pub missed : NodeData File → NodeData File → Bool
    missed d x = parent_or_equals f x.file && not (parent_or_equals d.file x.file)

    missed_none :
        (d : NodeData File) (ns : GNode File)
        → count_nodes containing ns ≡ 0
        → count_nodes (missed d) ns ≡ 0
    unfolding count_nodes
    missed_none d null h = refl
    missed_none d (gnode e cs ns) h = ground (arith, h, missed_none d cs, missed_none d ns)

    pub find_node-deepest :
        (ns : GNode File) (d : NodeData File)
        → IsNested ns
        → find_node (parent_or_equals f) ns ≡ some d
        → count_nodes (missed d) ns ≡ 0
    unfolding count_nodes find_node
    find_node-deepest null d n h = refl
    find_node-deepest (gnode e cs ns) d n h = ground (
      arith,
      n,
      h,
      Option-cases (find_node (parent_or_equals f) cs),
      ==_refl e.file,
      find_node-deepest cs d,
      find_node-deepest ns d,
      find_node-here,
      find_node-below,
      missed_none d cs,
      missed_none d ns,
      containing_apart e.file ns,
    )
      where
        find_node-here : find_node (parent_or_equals f) cs ≡ none → count_nodes containing cs ≡ 0
        find_node-here k = find_node-none-count containing (parent_or_equals f) cs k (λ x y. y)

        find_node-below :
            find_node (parent_or_equals f) cs ≡ some d
            → (parent_or_equals d.file e.file ≡ true) × (parent_or_equals f e.file ≡ true)
        find_node-below k =
            let under = find_under e.file (parent_or_equals f) cs d n.0 n.1 k in
            let part = find_node-count containing (parent_or_equals f) cs d k in
            let up : parent_or_equals d.file e.file ≡ true = ground (arith, under) in
            (up, parent_or_equals_trans f d.file e.file part.0 up)
