-- ===== src/IndexingTree/Adds.antt =====
-- The shape of the tree after tracker_indexing_tree_add.
use tracker_miners.Base.{
  ℕ, ◌≡◌, refl, inl, inr, Bool, true, false, not, none, ◌==◌, arith, Option-cases,
}
use tracker_miners.Base.Files.{FileOps, file_Eq, has_prefix}
use tracker_miners.IndexingTree.{
  NodeData, GNode, null, gnode, find_node, change_node, siblings, node_data_new, adopt, add,
}
use tracker_miners.IndexingTree.Nested.{
  AllUnder, AllApart, IsNested, BothApart, AllUnder-append, IsNested-append, AllUnder-siblings,
  IsNested-siblings,
}

module _ {File : Type 0} where
  -- what a failed search says of each part
  pub find_node-none :
      (test : File → Bool) (d : NodeData File) (cs ns : GNode File)
      → find_node test (gnode d cs ns) ≡ none
      → (find_node test cs ≡ none) × (test d.file ≡ false) × (find_node test ns ≡ none)
  unfolding find_node
  find_node-none test d cs ns h = ground (arith, h, Option-cases (find_node test cs))

module _ {File : Type 0} ⦃ops : FileOps File⦄ where
  AllUnder-moved : (f : File) (ns : GNode File) → AllUnder f (siblings (λ g. has_prefix g f) ns)
  unfolding siblings
  AllUnder-moved f null = tt
  AllUnder-moved f (gnode d cs ns) = ground (arith, AllUnder-moved f ns)

  -- without an ancestor of the directory or itself, the children that are kept are apart from it
  kept_apart :
      (new : NodeData File) (ks : GNode File) (ns : GNode File)
      → find_node (has_prefix new.file) ns ≡ none
      → find_node (◌==◌ new.file) ns ≡ none
      → BothApart (siblings (λ f. not (has_prefix f new.file)) ns) (gnode new ks null)
  unfolding siblings
  kept_apart new ks null h k = tt
  kept_apart new ks (gnode d cs ns) h k =
      let p = find_node-none (has_prefix new.file) d cs ns h in
      let e = find_node-none (◌==◌ new.file) d cs ns k in
      ground (
        arith,
        p,
        e,
        kept_apart new ks ns,
        ops.eq.same_iff d.file new.file,
        ops.eq.same_iff new.file d.file,
      )

  adopt-IsNested :
      (parent : File) (new : NodeData File) (ns : GNode File)
      → AllUnder parent ns
      → IsNested ns
      → has_prefix new.file parent ≡ true
      → find_node (has_prefix new.file) ns ≡ none
      → find_node (◌==◌ new.file) ns ≡ none
      → AllUnder parent (adopt new ns) × IsNested (adopt new ns)
  adopt-IsNested parent new ns u n p h k =
      let moved = siblings (λ f. has_prefix f new.file) ns in
      let kept = siblings (λ f. not (has_prefix f new.file)) ns in
      (
        AllUnder-append parent kept (gnode new moved null)
            (AllUnder-siblings parent (λ f. not (has_prefix f new.file)) ns u) (p, tt),
        IsNested-append kept (gnode new moved null)
            (IsNested-siblings (λ f. not (has_prefix f new.file)) ns n)
            (
              AllUnder-moved new.file ns,
              IsNested-siblings (λ f. has_prefix f new.file) ns n,
              tt,
              tt,
            )
            (kept_apart new moved ns h k),
      )

  module _ (test : File → Bool) (f : NodeData File → NodeData File) (g : GNode File → GNode File)
      (same : (d : NodeData File) → (f d).file ≡ d.file) where
    AllUnder-change :
        (p : File) (ns : GNode File) → AllUnder p ns → AllUnder p (change_node test f g ns)
    unfolding change_node
    AllUnder-change p null h = h
    AllUnder-change p (gnode d cs ns) h =
        ground (arith, h, same d, AllUnder-change p ns, Option-cases (find_node test cs))

    AllApart-change :
        (p : File) (ns : GNode File) → AllApart p ns → AllApart p (change_node test f g ns)
    unfolding change_node
    AllApart-change p null h = h
    AllApart-change p (gnode d cs ns) h =
        ground (arith, h, same d, AllApart-change p ns, Option-cases (find_node test cs))

  -- a change of data that keeps the file
  change_data-IsNested :
      (test : File → Bool) (f : NodeData File → NodeData File)
      → ((d : NodeData File) → (f d).file ≡ d.file)
      → (ns : GNode File) → IsNested ns
      → IsNested (change_node test f (λ c. c) ns)
  unfolding change_node
  change_data-IsNested test f same null h = h
  change_data-IsNested test f same (gnode d cs ns) h = ground (
    arith,
    h,
    same d,
    change_data-IsNested test f same cs,
    change_data-IsNested test f same ns,
    AllUnder-change test f (λ c. c) same d.file cs,
    AllApart-change test f (λ c. c) same d.file ns,
    Option-cases (find_node test cs),
  )

  change_adopt-IsNested :
      (new : NodeData File) (ns : GNode File)
      → IsNested ns
      → find_node (◌==◌ new.file) ns ≡ none
      → IsNested (change_node (has_prefix new.file) (λ x. x) (adopt new) ns)
  unfolding change_node
  change_adopt-IsNested new null h k = h
  change_adopt-IsNested new (gnode d cs ns) h k = ground (
    arith,
    h,
    find_node-none (◌==◌ new.file) d cs ns k,
    change_adopt-IsNested new cs,
    change_adopt-IsNested new ns,
    adopt-IsNested d.file new cs,
    AllUnder-change (has_prefix new.file) (λ x. x) (adopt new) (λ x. refl) d.file cs,
    AllApart-change (has_prefix new.file) (λ x. x) (adopt new) (λ x. refl) d.file ns,
    Option-cases (find_node (has_prefix new.file) cs),
  )

  pub add-IsNested :
      (tree : GNode File) (f : File) (flags : ℕ) → IsNested tree → IsNested (add tree f flags).0
  unfolding add
  add-IsNested tree f flags h = elim (Option-cases (find_node (◌==◌ f) tree)) [
    | inl e ↦ rw (e, IsNested) (change_adopt-IsNested (node_data_new f flags) tree h e)
    | inr (d, e) ↦
        rw (e, IsNested)
          (change_data-IsNested (◌==◌ f) (λ x. record x { flags = flags; shallow = false })
            (λ x. refl) tree h)
  ]
