-- ===== src/PriorityQueue/BinarySearch.antt =====
-- The binary search of insert_node, on segments in ascending order.

use tracker_miners.Base.{
  ℕ, zero, suc, ◌+◌, ◌-◌, ◌/◌, ◌≤◌, ◌<◌, ◌≡◌, ◌⊎◌, inl, inr, refl, ap, ◌∙◌, sym, true, false, none,
  some, List, [], ◌∷◌, arith, ltb, nat_eq, nat_eq_iff, if◌then◌else◌, Bool-cases, length, get_elem?,
}
use tracker_miners.Base.Int.{ℤ, ◌<ℤ◌, ltb_ℤ, eq_ℤ, eq_of_parts}
use tracker_miners.PriorityQueue.{
  Segment, Search, found, closest, no_segments, fault, search_loop, search_segment,
}

get_elem?-lt :
    {A : Type 0} (xs : List A) (i : ℕ) → i < length xs → (x : A) × (get_elem? xs i ≡ some x)
get_elem?-lt [] i h = absurd (omega arith)
get_elem?-lt (x ∷ xs) zero h = (x, refl)
get_elem?-lt (x ∷ xs) (suc i) h = get_elem?-lt xs i (omega arith)

get_elem?-past : {A : Type 0} (xs : List A) (i : ℕ) → length xs ≤ i → get_elem? xs i ≡ none
get_elem?-past [] i h = refl
get_elem?-past (x ∷ xs) zero h = absurd (omega arith)
get_elem?-past (x ∷ xs) (suc i) h = get_elem?-past xs i (omega arith)

same_elem :
    {A : Type 0} (xs : List A) {i j : ℕ} {x y : A}
    → i ≡ j
    → get_elem? xs i ≡ some x
    → get_elem? xs j ≡ some y
    → x ≡ y
same_elem xs e f g = cc (sym f ∙ ap (get_elem? xs) e ∙ g)

module _ (segments : List Segment) (p : ℤ) where
  -- the segments before `i` are below the priority
  abbrev pub BelowAt : ℕ → Type 0
  BelowAt i = (j : ℕ) (t : Segment) → j < i → get_elem? segments j ≡ some t → t.priority <ℤ p

  -- those from `i` on are above it
  abbrev pub AboveFrom : ℕ → Type 0
  AboveFrom i = (j : ℕ) (t : Segment) → i ≤ j → get_elem? segments j ≡ some t → p <ℤ t.priority

  -- What the end of a search says: the segment of the priority, or the two sides of its place.
  abbrev pub Finds : Search → Type 0
  Finds (found c s) = (get_elem? segments c ≡ some s) × (s.priority ≡ p)
  Finds (closest c s) =
      (get_elem? segments c ≡ some s)
      × ((p <ℤ s.priority) × BelowAt c ⊎ (s.priority <ℤ p) × AboveFrom (c + 1))
  Finds no_segments = segments ≡ []
  Finds fault = ⊥

abbrev pub IsSorted : List Segment → Type 0
IsSorted segments =
    (i j : ℕ) (s t : Segment)
    → i < j
    → get_elem? segments i ≡ some s
    → get_elem? segments j ≡ some t
    → s.priority <ℤ t.priority

-- one round of the loop, at the segment that it reads
module _ (fuel l r : ℕ) (segments : List Segment) (p : ℤ) {s : Segment}
    (at : get_elem? segments ((r + l) / 2) ≡ some s) where
  round_found :
      eq_ℤ s.priority p ≡ true → search_loop (suc fuel) l r segments p ≡ found ((r + l) / 2) s
  unfolding search_loop
  round_found e = ground arith

  round_left :
      eq_ℤ s.priority p ≡ false
      → ltb_ℤ p s.priority ≡ true
      → search_loop (suc fuel) l r segments p ≡ (
          if ltb ((r + l) / 2) (l + 1)
          then closest ((r + l) / 2) s
          else search_loop fuel l ((r + l) / 2 - 1) segments p)
  unfolding search_loop
  round_left e lt = ground arith

  round_right :
      eq_ℤ s.priority p ≡ false
      → ltb_ℤ p s.priority ≡ false
      → search_loop (suc fuel) l r segments p ≡ (
          if ltb r ((r + l) / 2 + 1)
          then closest ((r + l) / 2) s
          else search_loop fuel ((r + l) / 2 + 1) r segments p)
  unfolding search_loop
  round_right e ge = ground arith

-- a priority is equal to another, or above it, or below it
data Compared (s p : ℤ) : Type 0 where
  equal : eq_ℤ s p ≡ true → Compared s p
  above : eq_ℤ s p ≡ false → ltb_ℤ p s ≡ true → Compared s p
  below : eq_ℤ s p ≡ false → ltb_ℤ p s ≡ false → Compared s p

compared : (s p : ℤ) → Compared s p
compared s p = elim (Bool-cases (eq_ℤ s p)) [
  | inl e ↦ equal e
  | inr ne ↦ elim (Bool-cases (ltb_ℤ p s)) [ inl lt ↦ above ne lt | inr ge ↦ below ne ge ]
]

module _ (segments : List Segment) (p : ℤ) (sorted : IsSorted segments) where
  abbrev Ends : ℕ → ℕ → ℕ → Type 0
  Ends fuel l r =
      l ≤ r
      → r < length segments
      → r < l + fuel
      → BelowAt segments p l
      → AboveFrom segments p (r + 1)
      → Finds segments p (search_loop fuel l r segments p)

  module _ (c : ℕ) {s : Segment} (at : get_elem? segments c ≡ some s) where
    above_from : p <ℤ s.priority → AboveFrom segments p c
    above_from lt j t h g = elim (Bool-cases (nat_eq c j)) [
      | inl e ↦ let q : s ≡ t = same_elem segments ((nat_eq_iff c j).0 e) at g in rw (← q) lt
      | inr ne ↦ omega (arith, sorted c j s t (ground (arith, ne)) at g)
    ]

    below_from : s.priority <ℤ p → BelowAt segments p (c + 1)
    below_from lt j t h g = elim (Bool-cases (nat_eq c j)) [
      | inl e ↦ let q : s ≡ t = same_elem segments ((nat_eq_iff c j).0 e) at g in rw (← q) lt
      | inr ne ↦ omega (arith, sorted j c t s (ground (arith, ne)) g at)
    ]

  round-Finds :
      (fuel l r : ℕ) (s : Segment)
      → ((l' r' : ℕ) → Ends fuel l' r')
      → get_elem? segments ((r + l) / 2) ≡ some s
      → Compared s.priority p
      → Ends (suc fuel) l r
  round-Finds fuel l r s ih at (equal e) lr rn f low high =
      rw (round_found fuel l r segments p at e) (at, eq_of_parts s.priority p (ground (arith, e)))
  round-Finds fuel l r s ih at (above ne lt) lr rn f low high =
      rw (round_left fuel l r segments p at ne lt) (elim (Bool-cases (ltb ((r + l) / 2) (l + 1))) [
        | inl stop ↦
            rw stop (at, inl (ground (arith, lt), λ j t h g. low j t (ground (arith, stop, h)) g))
        | inr go ↦ rw go (
            ih l ((r + l) / 2 - 1) (ground (arith, go)) (omega arith) (ground (arith, go)) low
              (λ j t h.
                above_from ((r + l) / 2) at (ground (arith, lt)) j t (ground (arith, go, h))))
      ])
  round-Finds fuel l r s ih at (below ne ge) lr rn f low high =
      rw (round_right fuel l r segments p at ne ge) (elim (Bool-cases (ltb r ((r + l) / 2 + 1))) [
        | inl stop ↦
            rw stop
              (at, inr (ground (arith, ne, ge), λ j t h g. high j t (ground (arith, stop, h)) g))
        | inr go ↦ rw go (
            ih ((r + l) / 2 + 1) r (ground (arith, go)) rn (omega arith)
              (below_from ((r + l) / 2) at (ground (arith, ne, ge))) high)
      ])

  search_loop-Finds : (fuel l r : ℕ) → Ends fuel l r
  search_loop-Finds zero l r lr rn f low high = absurd (omega arith)
  search_loop-Finds (suc fuel) l r lr rn f low high =
      let (s, at) = get_elem?-lt segments ((r + l) / 2) (omega arith) in
      round-Finds fuel l r s (search_loop-Finds fuel) at (compared s.priority p) lr rn f low high

-- On sorted segments the search ends, and finds the segment of the priority or the place for one.
pub search_segment-Finds :
    (segments : List Segment) (p : ℤ)
    → IsSorted segments
    → Finds segments p (search_segment segments p)
unfolding search_segment
search_segment-Finds [] p sorted = refl
search_segment-Finds (s ∷ ss) p sorted =
    search_loop-Finds (s ∷ ss) p sorted (length (s ∷ ss)) 0 (length (s ∷ ss) - 1) (omega arith)
      (omega arith) (omega arith) (λ j t h g. absurd (omega arith))
      λ j t h g. cc (sym g ∙ get_elem?-past (s ∷ ss) j (omega arith))
