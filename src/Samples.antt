-- ===== src/Samples.antt =====
-- Locations for the examples: a path is the list of its names, the last one first, and the names are
-- numbers. The laws that the development assumes of `GFile` hold of them.

use tracker_miners.Base.{
  ℕ, ◌≡◌, refl, ◌↔◌, ◌⊎◌, inl, inr, Bool, true, false, ◌&&◌, ◌||◌, List, [], ◌∷◌, arith, nat_eq, Eq,
  Bool-cases, length, ◌<◌, ap,
}
use tracker_miners.Base.Files.{FileOps}
use tracker_miners.SparqlBuffer.{UriOps}

abbrev pub Location : Type 0
Location = List ℕ

abbrev pub same_path : Location → Location → Bool
same_path [] [] = true
same_path (x ∷ xs) (y ∷ ys) = nat_eq x y && same_path xs ys
same_path _ _ = false

same_path-eq : (a b : Location) → same_path a b ≡ true → a ≡ b
same_path-eq [] [] h = refl
same_path-eq [] (y ∷ ys) h = cc
same_path-eq (x ∷ xs) [] h = cc
same_path-eq (x ∷ xs) (y ∷ ys) h = ground (arith, same_path-eq xs ys)

same_path_refl : (a : Location) → same_path a a ≡ true
same_path_refl [] = refl
same_path_refl (x ∷ xs) = ground (arith, same_path_refl xs)

pub same_path_iff : (a b : Location) → (same_path a b ≡ true) ↔ (a ≡ b)
same_path_iff a b = (same_path-eq a b, λ p. rw p (same_path_refl b))

instance abbrev pub location_Eq : Eq Location
location_Eq = record { same = same_path; same_iff = same_path_iff }

abbrev pub below : Location → Location → Bool
below [] g = false
below (x ∷ xs) g = same_path xs g || below xs g

abbrev pub child_of : Location → Location → Bool
child_of [] g = false
child_of (x ∷ xs) g = same_path xs g

pub below_trans : (f g h : Location) → below f g ≡ true → below g h ≡ true → below f h ≡ true
below_trans [] g h p q = cc
below_trans (x ∷ xs) g h p q = elim (Bool-cases (same_path xs g)) [
  | inl e ↦ let at : below xs h ≡ true = rw (same_path-eq xs g e) q in ground (arith, at)
  | inr n ↦
      let at : below xs h ≡ true = below_trans xs g h (ground (arith, n)) q in ground (arith, at)
]

length-below : (f g : Location) → below f g ≡ true → length g < length f
length-below [] g h = cc
length-below (x ∷ xs) g h = elim (Bool-cases (same_path xs g)) [
  | inl e ↦ omega (arith, ap length (same_path-eq xs g e))
  | inr n ↦ omega (arith, length-below xs g (ground (arith, n)))
]

pub below_irrefl : (f : Location) → below f f ≡ false
below_irrefl f = elim (Bool-cases (below f f)) [
  | inl y ↦ absurd (omega (arith, length-below f f y))
  | inr n ↦ n
]

pub below_chain :
    (f g h : Location)
    → below f g ≡ true
    → below f h ≡ true
    → (g ≡ h) ⊎ (below g h ≡ true) ⊎ (below h g ≡ true)
below_chain [] g h p q = cc
below_chain (x ∷ xs) g h p q =
    ground (arith, below_chain xs g h, same_path_iff xs g, same_path_iff xs h)

pub child_of-below : (f g : Location) → child_of f g ≡ true → below f g ≡ true
child_of-below [] g h = cc
child_of-below (x ∷ xs) g h = ground arith

instance abbrev pub location_ops : FileOps Location
location_ops = record {
  eq = location_Eq;
  has_prefix = below;
  has_parent = child_of;
  prefix_irrefl = below_irrefl;
  prefix_trans = below_trans;
  prefix_chain = below_chain;
  parent-prefix = child_of-below;
}

abbrev pub dirname : Location → Location
dirname [] = []
dirname (x ∷ xs) = xs

-- every location has one text here, which serves where only the kind of an update matters
abbrev pub location_uris : UriOps Location
location_uris = record {
  get_uri = λ f. "file:///f";
  get_parent = dirname;
  get_display_basename = λ f. "f";
}
