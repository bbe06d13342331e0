-- ===== src/IndexingTree/Unlinks.antt =====
-- A removal of a directory, on the tree of a table of directories.
use tracker_miners.Base.{
  ℕ, ◌+◌, ◌≡◌, subst, sym, inl, inr, Bool, true, false, not, ◌&&◌, none, some, ◌==◌, arith,
  Option-cases, Table, remove_key, lookup-remove_key,
}
use tracker_miners.Base.Files.{FileOps, file_Eq, has_prefix}
use tracker_miners.IndexingTree.{
  NodeData, GNode, null, gnode, find_node, change_node, unlink_node, parent_or_equals, add, remove,
}
use tracker_miners.IndexingTree.Nested.{IsNested}
use tracker_miners.IndexingTree.Configured.{entry, IsConfigured, entry_found, entry_absent}
use tracker_miners.IndexingTree.Removes.{remove-IsNested}
use tracker_miners.IndexingTree.Counts.{count_nodes, one_if, find_node-count, count-unlink_node}

module _ {File : Type 0} ⦃ops : FileOps File⦄ where
  find_node-children :
      (f : File) (r : NodeData File) (cs ns : GNode File) (d : NodeData File)
      → find_node (◌==◌ f) cs ≡ some d
      → find_node (◌==◌ f) (gnode r cs ns) ≡ some d
  unfolding find_node
  find_node-children f r cs ns d h = ground (arith, h)

  find_node-none-children :
      (f : File) (r : NodeData File) (cs ns : GNode File)
      → find_node (◌==◌ f) (gnode r cs ns) ≡ none
      → find_node (◌==◌ f) cs ≡ none
  unfolding find_node
  find_node-none-children f r cs ns h = ground (arith, h, Option-cases (find_node (◌==◌ f) cs))

  find_node-none_top :
      (f : File) (r : NodeData File) (cs : GNode File)
      → find_node (◌==◌ f) cs ≡ none
      → (f == r.file) ≡ false
      → find_node (◌==◌ f) (gnode r cs null) ≡ none
  unfolding find_node
  find_node-none_top f r cs h e = ground (arith, h, e)

  freed_none :
      (q : NodeData File → Bool) (f : File) (r : NodeData File) (cs ns : GNode File)
      (d : NodeData File)
      → find_node (◌==◌ f) cs ≡ some d
      → count_nodes q (unlink_node (◌==◌ f) (gnode r cs ns)).1 ≡ 0
  unfolding unlink_node count_nodes
  freed_none q f r cs ns d h = ground (arith, h)

  remove-unlinks :
      (f : File) (r : NodeData File) (cs ns : GNode File) (d : NodeData File)
      → find_node (◌==◌ f) cs ≡ some d
      → d.removing ≡ false
      → (remove (gnode r cs ns) f).0 ≡ (unlink_node (◌==◌ f) (gnode r cs ns)).0
  unfolding remove
  remove-unlinks f r cs ns d h e = ground (arith, h, e)

  remove_absent :
      (f : File) (r : NodeData File) (cs ns : GNode File)
      → find_node (◌==◌ f) cs ≡ none
      → (f == r.file) ≡ false
      → (remove (gnode r cs ns) f).0 ≡ gnode r cs ns
  unfolding remove
  remove_absent f r cs ns h e = ground (arith, h, e)

  -- An unlinking below the root loses the directory's node.
  unlink-IsConfigured :
      (root f : File) (r : NodeData File) (cs ns : GNode File) (config : Table File ℕ)
      (d : NodeData File)
      → IsConfigured root (gnode r cs ns) config
      → find_node (◌==◌ f) cs ≡ some d
      → IsNested (unlink_node (◌==◌ f) (gnode r cs ns)).0
      → IsConfigured root (unlink_node (◌==◌ f) (gnode r cs ns)).0 (remove_key f config)
  unfolding unlink_node
  unlink-IsConfigured root f r cs ns config d c h n = record {
    nested = n;
    top = ground (arith, c.top, h);
    inside = omega (arith, c.inside, fewer (λ x. not (parent_or_equals x.file root)));
    exposed = omega (arith, c.exposed, fewer (λ x. x.shallow && not (root == x.file)));
    settled = omega (arith, c.settled, fewer (λ x. x.removing));
    entries = λ g j. ground (
      arith,
      c.entries g j,
      fewer (entry g j),
      entry_found (gnode r cs ns) f d j c.nested found,
      lookup-remove_key f g config,
      (find_node-count (entry f j) (◌==◌ f) cs d h).0,
      ops.eq.same_iff f d.file,
      ops.eq.same_iff g d.file,
      ops.eq.same_iff f g,
    );
  }
    where
      found : find_node (◌==◌ f) (gnode r cs ns) ≡ some d
      found = find_node-children f r cs ns d h

      fewer :
          (q : NodeData File → Bool)
          → count_nodes q (unlink_node (◌==◌ f) (gnode r cs ns)).0 + one_if (q d)
            ≡ count_nodes q (gnode r cs ns)
      fewer q = omega (
        arith,
        count-unlink_node q (◌==◌ f) (gnode r cs ns) d c.nested found,
        freed_none q f r cs ns d h,
      )

  -- A tree has one node without a sibling at its top.
  abbrev pub is_single : GNode File → Bool
  is_single null = false
  is_single (gnode r cs null) = true
  is_single (gnode r cs (gnode d ks ns)) = false

  pub remove-IsConfigured :
      (root f : File) (tree : GNode File) (config : Table File ℕ)
      → is_single tree ≡ true
      → IsConfigured root tree config
      → (f == root) ≡ false
      → IsConfigured root (remove tree f).0 (remove_key f config)
  remove-IsConfigured root f null config s c a = cc
  remove-IsConfigured root f (gnode r cs (gnode d ks ns)) config s c a = cc
  remove-IsConfigured root f (gnode r cs null) config s c a =
      elim (Option-cases (find_node (◌==◌ f) cs)) [
        | inr (d, e) ↦
            let part =
              find_node-count (λ x. x.removing) (◌==◌ f) (gnode r cs null) d
                (find_node-children f r cs null d e) in
            let same = remove-unlinks f r cs null d e (ground (arith, part, c.settled)) in
            subst (λ t. IsConfigured root t (remove_key f config)) (sym same)
              (unlink-IsConfigured root f r cs null config d c e
                (subst IsNested same (remove-IsNested (gnode r cs null) f c.nested)))
        | inl e ↦
            let other : (f == r.file) ≡ false =
              ground (arith, a, c.top, ops.eq.same_iff f r.file, ops.eq.same_iff root r.file) in
            subst (λ t. IsConfigured root t (remove_key f config))
              (sym (remove_absent f r cs null e other))
              (record {
                nested = c.nested;
                top = c.top;
                inside = c.inside;
                exposed = c.exposed;
                settled = c.settled;
                entries = λ g j. ground (
                  arith,
                  c.entries g j,
                  lookup-remove_key f g config,
                  ops.eq.same_iff f g,
                  entry_absent (gnode r cs null) f j (find_node-none_top f r cs e other),
                );
              })
      ]

  pub is_single-add :
      (tree : GNode File) (f : File) (k : ℕ)
      → is_single tree ≡ true
      → is_single (add tree f k).0 ≡ true
  unfolding add change_node
  is_single-add null f k h = cc
  is_single-add (gnode r cs null) f k h = ground (
    arith,
    Option-cases (find_node (◌==◌ f) (gnode r cs null)),
    Option-cases (find_node (◌==◌ f) cs),
    Option-cases (find_node (has_prefix f) cs),
  )
  is_single-add (gnode r cs (gnode d ks ns)) f k h = cc

  pub is_single-remove :
      (tree : GNode File) (f : File) → is_single tree ≡ true → is_single (remove tree f).0 ≡ true
  unfolding remove unlink_node
  is_single-remove null f h = cc
  is_single-remove (gnode r cs null) f h = ground (arith, Option-cases (find_node (◌==◌ f) cs))
  is_single-remove (gnode r cs (gnode d ks ns)) f h = cc
