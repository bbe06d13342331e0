-- ===== src/IndexingTree/Nested.antt =====
-- The shape of the tree: a child is below its parent, and no sibling contains another.
use tracker_miners.Base.{◌≡◌, Bool, true, false, ◌==◌, arith}
use tracker_miners.Base.Files.{FileOps, file_Eq, has_prefix}
use tracker_miners.IndexingTree.{GNode, null, gnode, siblings, append}

module _ {File : Type 0} ⦃ops : FileOps File⦄ where
  abbrev pub IsApart : File → File → Type 0
  IsApart f g = ((f == g) ≡ false) × (has_prefix f g ≡ false) × (has_prefix g f ≡ false)

  abbrev pub AllUnder : File → GNode File → Type 0
  AllUnder f null = Unit {0}
  AllUnder f (gnode d children next) = (has_prefix d.file f ≡ true) × AllUnder f next

  abbrev pub AllApart : File → GNode File → Type 0
  AllApart f null = Unit {0}
  AllApart f (gnode d children next) = IsApart f d.file × AllApart f next

  abbrev pub IsNested : GNode File → Type 0
  IsNested null = Unit {0}
  IsNested (gnode d children next) =
      AllUnder d.file children × IsNested children × AllApart d.file next × IsNested next

  -- every node of one chain apart from every node of the other
  abbrev pub BothApart : GNode File → GNode File → Type 0
  BothApart null ns = Unit {0}
  BothApart (gnode d children next) ns = AllApart d.file ns × BothApart next ns

  pub AllUnder-append :
      (f : File) (ms ns : GNode File) → AllUnder f ms → AllUnder f ns → AllUnder f (append ms ns)
  unfolding append
  AllUnder-append f null ns h k = k
  AllUnder-append f (gnode d cs ms) ns (h, hs) k = (h, AllUnder-append f ms ns hs k)

  pub AllApart-append :
      (f : File) (ms ns : GNode File) → AllApart f ms → AllApart f ns → AllApart f (append ms ns)
  unfolding append
  AllApart-append f null ns h k = k
  AllApart-append f (gnode d cs ms) ns (h, hs) k = (h, AllApart-append f ms ns hs k)

  pub IsNested-append :
      (ms ns : GNode File) → IsNested ms → IsNested ns → BothApart ms ns → IsNested (append ms ns)
  unfolding append
  IsNested-append null ns h k a = k
  IsNested-append (gnode d cs ms) ns (u, n, s, h) k (a, bs) =
      (u, n, AllApart-append d.file ms ns s a, IsNested-append ms ns h k bs)

  pub AllUnder-siblings :
      (f : File) (test : File → Bool) (ns : GNode File)
      → AllUnder f ns
      → AllUnder f (siblings test ns)
  unfolding siblings
  AllUnder-siblings f test null h = h
  AllUnder-siblings f test (gnode d cs ns) h = ground (arith, h, AllUnder-siblings f test ns)

  pub AllApart-siblings :
      (f : File) (test : File → Bool) (ns : GNode File)
      → AllApart f ns
      → AllApart f (siblings test ns)
  unfolding siblings
  AllApart-siblings f test null h = h
  AllApart-siblings f test (gnode d cs ns) h = ground (arith, h, AllApart-siblings f test ns)

  pub IsNested-siblings :
      (test : File → Bool) (ns : GNode File) → IsNested ns → IsNested (siblings test ns)
  unfolding siblings
  IsNested-siblings test null h = h
  IsNested-siblings test (gnode d cs ns) h =
      ground (arith, h, AllApart-siblings d.file test ns, IsNested-siblings test ns)

  pub BothApart-siblings :
      (test : File → Bool) (ms ns : GNode File) → BothApart ms ns → BothApart (siblings test ms) ns
  unfolding siblings
  BothApart-siblings test null ns h = h
  BothApart-siblings test (gnode d cs ms) ns h = ground (arith, h, BothApart-siblings test ms ns)

  -- what is below one of two files that are apart is apart from the other
  pub IsApart-below : (f g h : File) → IsApart f g → has_prefix h f ≡ true → IsApart h g
  IsApart-below f g h a b = ground (
    arith,
    a,
    b,
    ops.prefix_chain h f g,
    ops.prefix_trans g h f,
    ops.eq.same_iff f g,
    ops.eq.same_iff h g,
  )

  pub IsApart-sym : (f g : File) → IsApart f g → IsApart g f
  IsApart-sym f g a = ground (arith, a, ops.eq.same_iff f g, ops.eq.same_iff g f)

  pub AllApart-below :
      (f g : File) (ns : GNode File) → AllApart f ns → has_prefix g f ≡ true → AllApart g ns
  AllApart-below f g null h b = tt
  AllApart-below f g (gnode d cs ns) (h, hs) b =
      (IsApart-below f d.file g h b, AllApart-below f g ns hs b)

  pub AllUnder-AllApart :
      (f g : File) (ns : GNode File) → IsApart f g → AllUnder f ns → AllApart g ns
  AllUnder-AllApart f g null a h = tt
  AllUnder-AllApart f g (gnode d cs ns) a (h, hs) =
      (IsApart-sym d.file g (IsApart-below f g d.file a h), AllUnder-AllApart f g ns a hs)
