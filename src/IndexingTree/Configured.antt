-- ===== src/IndexingTree/Configured.antt =====
-- The tree against the table of the directories that are configured, and additions to both.
use tracker_miners.Base.{
  ℕ, ◌+◌, ◌≡◌, ◌≢◌, subst, ◌∙◌, refl, sym, inl, inr, Bool, true, false, not, ◌&&◌, Option, none,
  some, ◌==◌, arith, nat_eq, Option-cases, Table, lookup, insert, lookup-insert,
}
use tracker_miners.Base.Files.{FileOps, file_Eq, has_prefix}
use tracker_miners.IndexingTree.{
  NodeData, GNode, null, gnode, find_node, change_node, adopt, parent_or_equals, node_data_new, add,
}
use tracker_miners.IndexingTree.Nested.{IsNested}
use tracker_miners.IndexingTree.Adds.{add-IsNested}
use tracker_miners.IndexingTree.Counts.{
  count_nodes, one_if, of_file, find_node-count, find_node-none-count, count-change_data,
  count-change_adopt, count_split, count_distinct,
}

abbrev pub is_flags : ℕ → Option ℕ → Bool
is_flags k none = false
is_flags k (some j) = nat_eq j k

module _ {File : Type 0} ⦃ops : FileOps File⦄ where
  -- tracker_indexing_tree_constructed
  abbrev pub new_tree : File → GNode File
  new_tree root =
      gnode (record { file = root; flags = 0; shallow = true; removing = false }) null null

  -- a node that is configured, for the directory and with the flags
  abbrev pub has_flags : ℕ → NodeData File → Bool
  has_flags k x = not x.shallow && nat_eq x.flags k

  abbrev pub entry : File → ℕ → NodeData File → Bool
  entry f k x = f == x.file && has_flags k x

  abbrev pub is_top : File → GNode File → Bool
  is_top root null = false
  is_top root (gnode d cs ns) = root == d.file

  -- The tree is nested below the root, only the root is shallow, and the other nodes are the table's
  -- entries.
  pub record IsConfigured (root : File) (tree : GNode File) (config : Table File ℕ) : Type 0 where
    pub nested : IsNested tree
    pub top : is_top root tree ≡ true
    pub inside : count_nodes (λ x. not (parent_or_equals x.file root)) tree ≡ 0
    pub exposed : count_nodes (λ x. x.shallow && not (root == x.file)) tree ≡ 0
    pub settled : count_nodes (λ x. x.removing) tree ≡ 0
    pub entries :
        (f : File) (k : ℕ) → count_nodes (entry f k) tree ≡ one_if (is_flags k (lookup f config))

  abbrev pub overwrite : ℕ → NodeData File → NodeData File
  overwrite k x = record x { flags = k; shallow = false }

  -- the node that a search for a directory finds is the only one of it
  pub entry_found :
      (tree : GNode File) (f : File) (d : NodeData File) (k : ℕ)
      → IsNested tree
      → find_node (◌==◌ f) tree ≡ some d
      → count_nodes (entry f k) tree ≡ one_if (entry f k d)
  entry_found tree f d k n h = ground (
    arith,
    count_distinct f tree n,
    count_split (of_file f) (has_flags k) tree,
    find_node-count (entry f k) (◌==◌ f) tree d h,
    find_node-count (λ x. f == x.file && not (has_flags k x)) (◌==◌ f) tree d h,
  )

  pub entry_absent :
      (tree : GNode File) (f : File) (k : ℕ)
      → find_node (◌==◌ f) tree ≡ none
      → count_nodes (entry f k) tree ≡ 0
  entry_absent tree f k h =
      find_node-none-count (entry f k) (◌==◌ f) tree h (λ x e. ground (arith, e))

  is_top-change :
      (root : File) (test : File → Bool) (f : NodeData File → NodeData File)
      (g : GNode File → GNode File) (tree : GNode File)
      → ((d : NodeData File) → (f d).file ≡ d.file)
      → is_top root (change_node test f g tree) ≡ is_top root tree
  unfolding change_node
  is_top-change root test f g null same = refl
  is_top-change root test f g (gnode d cs ns) same =
      ground (arith, same d, Option-cases (find_node test cs))

  -- Flags of a directory that is in the tree are overwritten.
  overwrite-IsConfigured :
      (root f : File) (k : ℕ) (tree : GNode File) (config : Table File ℕ) (d : NodeData File)
      → IsConfigured root tree config
      → find_node (◌==◌ f) tree ≡ some d
      → IsNested (change_node (◌==◌ f) (overwrite k) (λ c. c) tree)
      → IsConfigured root (change_node (◌==◌ f) (overwrite k) (λ c. c) tree) (insert f k config)
  overwrite-IsConfigured root f k tree config d c h n = record {
    nested = n;
    top = is_top-change root (◌==◌ f) (overwrite k) (λ c. c) tree (λ x. refl) ∙ c.top;
    inside = omega (arith, c.inside, changed (λ x. not (parent_or_equals x.file root)));
    exposed = ground (arith, c.exposed, changed (λ x. x.shallow && not (root == x.file)));
    settled = omega (arith, c.settled, changed (λ x. x.removing));
    entries = λ g j. ground (
      arith,
      c.entries g j,
      changed (entry g j),
      entry_found tree f d j c.nested h,
      lookup-insert f g k config,
      (find_node-count (entry f k) (◌==◌ f) tree d h).0,
      ops.eq.same_iff f d.file,
      ops.eq.same_iff g d.file,
      ops.eq.same_iff f g,
    );
  }
    where
      changed :
          (q : NodeData File → Bool)
          → count_nodes q (change_node (◌==◌ f) (overwrite k) (λ c. c) tree) + one_if (q d)
            ≡ count_nodes q tree + one_if (q (overwrite k d))
      changed q = count-change_data q (◌==◌ f) (overwrite k) tree d h

  parent_found :
      (root f : File) (tree : GNode File)
      → is_top root tree ≡ true
      → parent_or_equals f root ≡ true
      → find_node (◌==◌ f) tree ≡ none
      → find_node (has_prefix f) tree ≢ none
  unfolding find_node
  parent_found root f null t h k e = cc
  parent_found root f (gnode d cs ns) t h k e = ground (
    arith,
    t,
    h,
    k,
    e,
    Option-cases (find_node (has_prefix f) cs),
    Option-cases (find_node (◌==◌ f) cs),
    ops.eq.same_iff root d.file,
    ops.eq.same_iff f root,
    ops.eq.same_iff f d.file,
  )

  -- A new directory gets its own node.
  adopt-IsConfigured :
      (root f : File) (k : ℕ) (tree : GNode File) (config : Table File ℕ) (d : NodeData File)
      → IsConfigured root tree config
      → parent_or_equals f root ≡ true
      → find_node (◌==◌ f) tree ≡ none
      → find_node (has_prefix f) tree ≡ some d
      → IsNested (change_node (has_prefix f) (λ x. x) (adopt (node_data_new f k)) tree)
      → IsConfigured root
          (change_node (has_prefix f) (λ x. x) (adopt (node_data_new f k)) tree)
          (insert f k config)
  adopt-IsConfigured root f k tree config d c a absent h n = record {
    nested = n;
    top =
        is_top-change root (has_prefix f) (λ x. x) (adopt (node_data_new f k)) tree (λ x. refl)
        ∙ c.top;
    inside = ground (arith, a, c.inside, changed (λ x. not (parent_or_equals x.file root)));
    exposed = ground (arith, c.exposed, changed (λ x. x.shallow && not (root == x.file)));
    settled = ground (arith, c.settled, changed (λ x. x.removing));
    entries = λ g j. ground (
      arith,
      c.entries g j,
      changed (entry g j),
      entry_absent tree f j absent,
      lookup-insert f g k config,
      ops.eq.same_iff g f,
      ops.eq.same_iff f g,
    );
  }
    where
      changed :
          (q : NodeData File → Bool)
          → count_nodes q (change_node (has_prefix f) (λ x. x) (adopt (node_data_new f k)) tree)
            ≡ count_nodes q tree + one_if (q (node_data_new f k))
      changed q = count-change_adopt q (has_prefix f) (node_data_new f k) tree d h

  add-overwrites :
      (f : File) (k : ℕ) (tree : GNode File) (d : NodeData File)
      → find_node (◌==◌ f) tree ≡ some d
      → (add tree f k).0 ≡ change_node (◌==◌ f) (overwrite k) (λ c. c) tree
  unfolding add
  add-overwrites f k tree d h = rw (h, add) refl

  add-adopts :
      (f : File) (k : ℕ) (tree : GNode File)
      → find_node (◌==◌ f) tree ≡ none
      → (add tree f k).0 ≡ change_node (has_prefix f) (λ x. x) (adopt (node_data_new f k)) tree
  unfolding add
  add-adopts f k tree h = rw (h, add) refl

  pub add-IsConfigured :
      (root f : File) (k : ℕ) (tree : GNode File) (config : Table File ℕ)
      → IsConfigured root tree config
      → parent_or_equals f root ≡ true
      → IsConfigured root (add tree f k).0 (insert f k config)
  add-IsConfigured root f k tree config c a = elim (Option-cases (find_node (◌==◌ f) tree)) [
    | inr (d, e) ↦
        let same = add-overwrites f k tree d e in
        subst (λ t. IsConfigured root t (insert f k config)) (sym same)
          (overwrite-IsConfigured root f k tree config d c e
            (subst IsNested same (add-IsNested tree f k c.nested)))
    | inl e ↦ elim (Option-cases (find_node (has_prefix f) tree)) [
      | inl m ↦ absurd (parent_found root f tree c.top a e m)
      | inr (d, m) ↦
          let same = add-adopts f k tree e in
          subst (λ t. IsConfigured root t (insert f k config)) (sym same)
            (adopt-IsConfigured root f k tree config d c a e m
              (subst IsNested same (add-IsNested tree f k c.nested)))
    ]
  ]
