-- ===== src/IndexingTree/Counts.antt =====
-- How many nodes of a tree pass a test, and what a search and a change do to that.
use tracker_miners.Base.{
  ℕ, ◌+◌, ◌≤◌, ◌≡◌, refl, Bool, true, false, not, ◌&&◌, none, some, if◌then◌else◌, ◌==◌, arith,
  Option-cases,
}
use tracker_miners.Base.Files.{FileOps, file_Eq, has_prefix}
use tracker_miners.IndexingTree.{
  NodeData, GNode, null, gnode, find_node, change_node, siblings, append, adopt, unlink_node,
  parent_or_equals,
}
use tracker_miners.IndexingTree.Nested.{AllUnder, AllApart, IsNested}
use tracker_miners.IndexingTree.Removes.{unlink_node-Splits}

abbrev pub one_if : Bool → ℕ
one_if b = if b then 1 else 0

module _ {File : Type 0} where
  unfoldable pub count_nodes : (NodeData File → Bool) → GNode File → ℕ
  count_nodes q null = 0
  count_nodes q (gnode d children next) =
      one_if (q d) + (count_nodes q children + count_nodes q next)

  module _ (q : NodeData File → Bool) where
    pub count-append :
        (ms ns : GNode File) → count_nodes q (append ms ns) ≡ count_nodes q ms + count_nodes q ns
    unfolding count_nodes append
    count-append null ns = omega arith
    count-append (gnode d cs ms) ns = omega (arith, count-append ms ns)

    pub count-siblings :
        (test : File → Bool) (ns : GNode File)
        → count_nodes q (siblings test ns) + count_nodes q (siblings (λ f. not (test f)) ns)
          ≡ count_nodes q ns
    unfolding count_nodes siblings
    count-siblings test null = refl
    count-siblings test (gnode d cs ns) = ground (arith, count-siblings test ns)

    pub find_node-count :
        (test : File → Bool) (ns : GNode File) (d : NodeData File)
        → find_node test ns ≡ some d
        → (test d.file ≡ true) × (one_if (q d) ≤ count_nodes q ns)
    unfolding count_nodes find_node
    find_node-count test null d h = cc
    find_node-count test (gnode e cs ns) d h = ground (
      arith,
      h,
      Option-cases (find_node test cs),
      find_node-count test cs d,
      find_node-count test ns d,
    )

    pub find_node-none-count :
        (test : File → Bool) (ns : GNode File)
        → find_node test ns ≡ none
        → ((x : NodeData File) → q x ≡ true → test x.file ≡ true)
        → count_nodes q ns ≡ 0
    unfolding count_nodes find_node
    find_node-none-count test null h s = refl
    find_node-none-count test (gnode e cs ns) h s = ground (
      arith,
      h,
      Option-cases (find_node test cs),
      find_node-none-count test cs,
      find_node-none-count test ns,
      s e,
    )

    -- a change of data counts the found node anew
    pub count-change_data :
        (test : File → Bool) (f : NodeData File → NodeData File) (ns : GNode File)
        (d : NodeData File)
        → find_node test ns ≡ some d
        → count_nodes q (change_node test f (λ c. c) ns) + one_if (q d)
          ≡ count_nodes q ns + one_if (q (f d))
    unfolding count_nodes find_node change_node
    count-change_data test f null d h = cc
    count-change_data test f (gnode e cs ns) d h = ground (
      arith,
      h,
      Option-cases (find_node test cs),
      count-change_data test f cs d,
      count-change_data test f ns d,
    )

  pub count_mono :
      (p q : NodeData File → Bool) (ns : GNode File)
      → ((x : NodeData File) → p x ≡ true → q x ≡ true)
      → count_nodes p ns ≤ count_nodes q ns
  unfolding count_nodes
  count_mono p q null h = omega arith
  count_mono p q (gnode d cs ns) h = ground (arith, count_mono p q cs h, count_mono p q ns h, h d)

  -- a test is met or not, among the nodes that pass another
  pub count_split :
      (p q : NodeData File → Bool) (ns : GNode File)
      → count_nodes (λ x. p x && q x) ns + count_nodes (λ x. p x && not (q x)) ns ≡ count_nodes p ns
  unfolding count_nodes
  count_split p q null = refl
  count_split p q (gnode d cs ns) = ground (arith, count_split p q cs, count_split p q ns)

module _ {File : Type 0} ⦃ops : FileOps File⦄ where
  module _ (q : NodeData File → Bool) where
    pub count-adopt :
        (new : NodeData File) (ns : GNode File)
        → count_nodes q (adopt new ns) ≡ count_nodes q ns + one_if (q new)
    unfolding count_nodes
    count-adopt new ns = omega (
      arith,
      count-siblings q (λ f. has_prefix f new.file) ns,
      count-append q (siblings (λ f. not (has_prefix f new.file)) ns)
          (gnode new (siblings (λ f. has_prefix f new.file) ns) null),
    )

    -- an adoption counts the new node besides
    pub count-change_adopt :
        (test : File → Bool) (new : NodeData File) (ns : GNode File) (d : NodeData File)
        → find_node test ns ≡ some d
        → count_nodes q (change_node test (λ x. x) (adopt new) ns)
          ≡ count_nodes q ns + one_if (q new)
    unfolding count_nodes find_node change_node
    count-change_adopt test new null d h = cc
    count-change_adopt test new (gnode e cs ns) d h = ground (
      arith,
      h,
      Option-cases (find_node test cs),
      count-change_adopt test new cs d,
      count-change_adopt test new ns d,
      count-adopt new cs,
    )

  siblings_all :
      (f : File) (ns : GNode File) → AllUnder f ns → siblings (λ g. has_prefix g f) ns ≡ ns
  unfolding siblings
  siblings_all f null h = refl
  siblings_all f (gnode d cs ns) h = ground (arith, h, siblings_all f ns)

  -- an unlinking loses the found node, and no other
  pub count-unlink_node :
      (q : NodeData File → Bool) (test : File → Bool) (ns : GNode File) (d : NodeData File)
      → IsNested ns
      → find_node test ns ≡ some d
      → count_nodes q (unlink_node test ns).0 + count_nodes q (unlink_node test ns).1 + one_if (q d)
        ≡ count_nodes q ns
  unfolding count_nodes find_node unlink_node
  count-unlink_node q test null d v h = cc
  count-unlink_node q test (gnode e cs ns) d v h = ground (
    arith,
    h,
    v,
    Option-cases (find_node test cs),
    count-unlink_node q test cs d,
    count-unlink_node q test ns d,
    (unlink_node-Splits test cs v.1).under e.file,
    siblings_all e.file (unlink_node test cs).1,
    count-append q (unlink_node test cs).0 (unlink_node test cs).1,
  )

  -- No two nodes of a nested tree are of one file.
  module _ (f : File) where
    abbrev pub of_file : NodeData File → Bool
    of_file x = f == x.file

    count_under :
        (p : File) (ns : GNode File)
        → AllUnder p ns
        → IsNested ns
        → has_prefix f p ≡ false
        → count_nodes of_file ns ≡ 0
    unfolding count_nodes
    count_under p null u n h = refl
    count_under p (gnode d cs ns) u n h = ground (
      arith,
      u,
      n,
      h,
      count_under p ns,
      count_under d.file cs,
      ops.prefix_trans f d.file p,
      ops.eq.same_iff f d.file,
    )

    count_apart :
        (p : File) (ns : GNode File)
        → AllApart p ns
        → IsNested ns
        → parent_or_equals f p ≡ true
        → count_nodes of_file ns ≡ 0
    unfolding count_nodes
    count_apart p null u n h = refl
    count_apart p (gnode d cs ns) u n h = ground (
      arith,
      u,
      n,
      h,
      count_apart p ns,
      count_under d.file cs,
      ops.prefix_chain f d.file p,
      ops.eq.same_iff f d.file,
      ops.eq.same_iff f p,
      ops.eq.same_iff p d.file,
    )

    pub count_distinct : (ns : GNode File) → IsNested ns → count_nodes of_file ns ≤ 1
    unfolding count_nodes
    count_distinct null n = omega arith
    count_distinct (gnode d cs ns) n = ground (
      arith,
      n,
      count_distinct cs,
      count_distinct ns,
      count_under d.file cs,
      count_apart d.file ns,
      ops.eq.same_iff f d.file,
      ops.prefix_irrefl d.file,
    )
