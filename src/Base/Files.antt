-- ===== src/Base/Files.antt =====
-- What the code uses of `GFile`, which is GIO's. A value of `File` is a location: two `GFile` objects
-- that `g_file_equal` holds equal are one value of it. The laws are those that GIO documents.
use mathlib.Core.Path.{◌≡◌}
use mathlib.Core.Logic.{◌⊎◌}
use mathlib.Core.Bool.{Bool, true, false}
use tracker_miners.Base.Tests.{Eq}

pub record FileOps (File : Type 0) : Type 0 where
  pub eq : Eq File
  -- g_file_has_prefix (file, prefix): `prefix` is a proper ancestor of `file`
  pub has_prefix : File → File → Bool
  -- g_file_has_parent (file, parent)
  pub has_parent : File → File → Bool
  pub prefix_irrefl : (f : File) → has_prefix f f ≡ false
  pub prefix_trans :
      (f g h : File) → has_prefix f g ≡ true → has_prefix g h ≡ true → has_prefix f h ≡ true
  -- the ancestors of a file lie on one line
  pub prefix_chain :
      (f g h : File)
      → has_prefix f g ≡ true
      → has_prefix f h ≡ true
      → (g ≡ h) ⊎ (has_prefix g h ≡ true) ⊎ (has_prefix h g ≡ true)
  pub parent-prefix : (f g : File) → has_parent f g ≡ true → has_prefix f g ≡ true

instance abbrev pub file_Eq : {File : Type 0} ⦃ops : FileOps File⦄ → Eq File
file_Eq ⦃ops⦄ = ops.eq

module _ {File : Type 0} ⦃ops : FileOps File⦄ where
  abbrev pub has_prefix : File → File → Bool
  has_prefix = ops.has_prefix

  abbrev pub has_parent : File → File → Bool
  has_parent = ops.has_parent
