-- ===== src/Mp3/Tables/Scan.antt =====
-- A scan of a table of frame names, and tables whose names ascend.
use tracker_miners.Base.{
  ℕ, zero, suc, ◌≤◌, ◌<◌, ◌≡◌, refl, Bool, true, false, ◌&&◌, none, some, List, [], ◌∷◌, nat_eq,
  ltb, arith, length, get_elem?,
}

module _ {A : Type 0} where
  -- the frame of the first entry with the name
  abbrev pub scan_frames : A → List (ℕ × A) → ℕ → A
  scan_frames unknown [] name = unknown
  scan_frames unknown (e ∷ table) name = elim (nat_eq e.0 name) [
    | true ↦ e.1
    | false ↦ scan_frames unknown table name
  ]

  -- the names ascend, and are above `k`
  abbrev pub ascends : ℕ → List (ℕ × A) → Bool
  ascends k [] = true
  ascends k (e ∷ table) = ltb k e.0 && ascends e.0 table

  pub ascends-above :
      (k : ℕ) (table : List (ℕ × A)) (i : ℕ) (a : ℕ × A)
      → ascends k table ≡ true
      → get_elem? table i ≡ some a
      → k < a.0
  ascends-above k [] i a h g = absurd (ground (arith, g))
  ascends-above k (e ∷ table) zero a h g = ground arith
  ascends-above k (e ∷ table) (suc i) a h g = ground (arith, ascends-above e.0 table i a)

  pub ascends-order :
      (k : ℕ) (table : List (ℕ × A)) (i j : ℕ) (a b : ℕ × A)
      → ascends k table ≡ true
      → i < j
      → get_elem? table i ≡ some a
      → get_elem? table j ≡ some b
      → a.0 < b.0
  ascends-order k [] i j a b h l g f = absurd (ground (arith, g))
  ascends-order k (e ∷ table) i zero a b h l g f = absurd (omega arith)
  ascends-order k (e ∷ table) zero (suc j) a b h l g f = ground (arith, ascends-above e.0 table j b)
  ascends-order k (e ∷ table) (suc i) (suc j) a b h l g f =
      ground (arith, ascends-order e.0 table i j a b)

  abbrev pub IsAbsent : List (ℕ × A) → ℕ → Type 0
  IsAbsent table name = (i : ℕ) (a : ℕ × A) → get_elem? table i ≡ some a → nat_eq a.0 name ≡ false

  pub scan_frames-absent :
      (unknown : A) (table : List (ℕ × A)) (name : ℕ)
      → IsAbsent table name
      → scan_frames unknown table name ≡ unknown
  scan_frames-absent unknown [] name h = refl
  scan_frames-absent unknown (e ∷ table) name h =
      rw (scan_frames, h 0 e refl) (scan_frames-absent unknown table name (λ i. h (suc i)))

  pub scan_frames-present :
      (unknown : A) (k : ℕ) (table : List (ℕ × A)) (name i : ℕ) (a : ℕ × A)
      → ascends k table ≡ true
      → get_elem? table i ≡ some a
      → nat_eq a.0 name ≡ true
      → scan_frames unknown table name ≡ a.1
  scan_frames-present unknown k [] name i a h g n = absurd (ground (arith, g))
  scan_frames-present unknown k (e ∷ table) name zero a h g n = ground arith
  scan_frames-present unknown k (e ∷ table) name (suc i) a h g n =
      ground (arith, ascends-above e.0 table i a, scan_frames-present unknown e.0 table name i a)

  pub get_elem?-in :
      (table : List (ℕ × A)) (i : ℕ) → i < length table → (a : ℕ × A) × (get_elem? table i ≡ some a)
  get_elem?-in [] i h = absurd (omega arith)
  get_elem?-in (x ∷ xs) zero h = (x, refl)
  get_elem?-in (x ∷ xs) (suc i) h = get_elem?-in xs i (omega arith)

  pub get_elem?-out : (table : List (ℕ × A)) (i : ℕ) → length table ≤ i → get_elem? table i ≡ none
  get_elem?-out [] i h = refl
  get_elem?-out (x ∷ xs) zero h = absurd (omega arith)
  get_elem?-out (x ∷ xs) (suc i) h = get_elem?-out xs i (omega arith)
