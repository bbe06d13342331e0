-- ===== src/IndexingTree/Removes.antt =====
-- The shape of the tree after tracker_indexing_tree_remove.
use tracker_miners.Base.{◌≡◌, Bool, true, ◌==◌, arith, Option-cases}
use tracker_miners.Base.Files.{FileOps, file_Eq, has_prefix}
use tracker_miners.IndexingTree.{
  NodeData, GNode, null, gnode, find_node, siblings, append, unlink_node, remove,
}
use tracker_miners.IndexingTree.Nested.{
  AllUnder, AllApart, IsNested, BothApart, AllUnder-append, IsNested-append, AllUnder-siblings,
  AllApart-siblings, IsNested-siblings, IsApart-sym, AllUnder-AllApart,
}

module _ {File : Type 0} ⦃ops : FileOps File⦄ where
  -- What an unlinking leaves of a chain, and what it frees, are nested and apart, and stay where the
  -- chain was.
  pub record Splits (ns ms ks : GNode File) : Type 0 where
    nested : IsNested ms
    moved_nested : IsNested ks
    apart : BothApart ms ks
    pub under : (f : File) → AllUnder f ns → AllUnder f ms × AllUnder f ks
    away : (f : File) → AllApart f ns → AllApart f ms × AllApart f ks

  AllUnder-trans :
      (f g : File) (ns : GNode File) → has_prefix g f ≡ true → AllUnder g ns → AllUnder f ns
  AllUnder-trans f g null h k = tt
  AllUnder-trans f g (gnode d cs ns) h (k, ks) =
      (ops.prefix_trans d.file g f k h, AllUnder-trans f g ns h ks)

  BothApart-null : (ns : GNode File) → BothApart ns null
  BothApart-null null = tt
  BothApart-null (gnode d cs ns) = (tt, BothApart-null ns)

  BothApart-right :
      (test : File → Bool) (ms ns : GNode File) → BothApart ms ns → BothApart ms (siblings test ns)
  BothApart-right test null ns h = tt
  BothApart-right test (gnode d cs ms) ns (h, hs) =
      (AllApart-siblings d.file test ns h, BothApart-right test ms ns hs)

  -- the siblings of a node are apart from its children
  next_apart : (f : File) (ns cs : GNode File) → AllApart f ns → AllUnder f cs → BothApart ns cs
  next_apart f null cs h u = tt
  next_apart f (gnode d ks ns) cs (h, hs) u =
      (AllUnder-AllApart f d.file cs h u, next_apart f ns cs hs u)

  -- The three places of the node: below the head of the chain, at it, or further on.
  Splits-below :
      (d : NodeData File) (cs ns ms ks : GNode File)
      → IsNested (gnode d cs ns)
      → Splits cs ms ks
      → Splits
          (gnode d cs ns)
          (gnode d (append ms (siblings (λ f. has_prefix f d.file) ks)) ns)
          null
  Splits-below d cs ns ms ks (u, n, a, h) s = record {
    nested = (
      AllUnder-append d.file ms (siblings (λ f. has_prefix f d.file) ks) (s.under d.file u).0
          (AllUnder-siblings d.file (λ f. has_prefix f d.file) ks (s.under d.file u).1),
      IsNested-append ms (siblings (λ f. has_prefix f d.file) ks) s.nested
          (IsNested-siblings (λ f. has_prefix f d.file) ks s.moved_nested)
          (BothApart-right (λ f. has_prefix f d.file) ms ks s.apart),
      a,
      h,
    );
    moved_nested = tt;
    apart = (tt, BothApart-null ns);
    under = λ f v. (v, tt);
    away = λ f v. (v, tt);
  }

  Splits-here :
      (d : NodeData File) (cs ns : GNode File)
      → IsNested (gnode d cs ns)
      → Splits (gnode d cs ns) ns cs
  Splits-here d cs ns (u, n, a, h) = record {
    nested = h;
    moved_nested = n;
    apart = next_apart d.file ns cs a u;
    under = λ f v. (v.1, AllUnder-trans f d.file cs v.0 u);
    away = λ f v. (v.1, AllUnder-AllApart d.file f cs (IsApart-sym f d.file v.0) u);
  }

  Splits-later :
      (d : NodeData File) (cs ns ms ks : GNode File)
      → IsNested (gnode d cs ns)
      → Splits ns ms ks
      → Splits (gnode d cs ns) (gnode d cs ms) ks
  Splits-later d cs ns ms ks (u, n, a, h) s = record {
    nested = (u, n, (s.away d.file a).0, s.nested);
    moved_nested = s.moved_nested;
    apart = ((s.away d.file a).1, s.apart);
    under = λ f v. ((v.0, (s.under f v.1).0), (s.under f v.1).1);
    away = λ f v. ((v.0, (s.away f v.1).0), (s.away f v.1).1);
  }

  pub unlink_node-Splits :
      (test : File → Bool) (ns : GNode File)
      → IsNested ns
      → Splits ns (unlink_node test ns).0 (unlink_node test ns).1
  unfolding unlink_node
  unlink_node-Splits test null h = record {
    nested = tt;
    moved_nested = tt;
    apart = tt;
    under = λ f v. (tt, tt);
    away = λ f v. (tt, tt);
  }
  unlink_node-Splits test (gnode d cs ns) h = ground (
    arith,
    Option-cases (find_node test cs),
    Splits-below d cs ns (unlink_node test cs).0 (unlink_node test cs).1 h
        (unlink_node-Splits test cs h.1),
    Splits-here d cs ns h,
    Splits-later d cs ns (unlink_node test ns).0 (unlink_node test ns).1 h
        (unlink_node-Splits test ns h.3),
  )

  pub remove-IsNested : (tree : GNode File) (f : File) → IsNested tree → IsNested (remove tree f).0
  unfolding remove
  remove-IsNested null f h = h
  remove-IsNested (gnode d cs ns) f h = ground (
    arith,
    h,
    Option-cases (find_node (◌==◌ f) cs),
    (unlink_node-Splits (◌==◌ f) (gnode d cs ns) h).nested,
  )
