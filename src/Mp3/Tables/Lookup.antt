-- ===== src/Mp3/Tables/Lookup.antt =====
-- The binary searches for a frame's name, against a scan of the table from its start.
use tracker_miners.Base.{
  order, ℕ, zero, suc, ◌+◌, ◌-◌, ◌/◌, ◌≤◌, ◌<◌, ◌≡◌, refl, ap, sym, subst, true, inl, inr, ◌⊎◌,
  some, List, nat_eq, arith, length, get_elem?,
}
use tracker_miners.Mp3.{Outcome, ok}
use tracker_miners.Mp3.Tables.{
  id3v24_unknown, id3v24_frames, id3v2_unknown, id3v2_frames, search_frames, get_frame,
  id3v24_get_frame, id3v2_get_frame, frame_at,
}
use tracker_miners.Mp3.Tables.Scan.{
  scan_frames, ascends, ascends-order, IsAbsent, scan_frames-absent, scan_frames-present,
  get_elem?-in, get_elem?-out,
}

trichotomy : (a b : ℕ) → (a < b) ⊎ (a ≡ b) ⊎ (b < a)
trichotomy a b = ground arith

module _ {A : Type 0} where
  -- what the loop ends with: an entry that has the name, or any one when none has it
  abbrev Answers : List (ℕ × A) → ℕ → Outcome (ℕ × A) → Type 0
  Answers table name o =
      (e : ℕ × A) × (i : ℕ) × (o ≡ ok e)
      × (get_elem? table i ≡ some e)
      × ((nat_eq e.0 name ≡ true) ⊎ IsAbsent table name)

  abbrev IsBelow : List (ℕ × A) → ℕ → ℕ → Type 0
  IsBelow table name l = (i : ℕ) (a : ℕ × A) → i < l → get_elem? table i ≡ some a → a.0 < name

  abbrev IsAbove : List (ℕ × A) → ℕ → ℕ → Type 0
  IsAbove table name end = (i : ℕ) (a : ℕ × A) → end ≤ i → get_elem? table i ≡ some a → name < a.0

  IsAbove-entry :
      (k : ℕ) (table : List (ℕ × A)) (name m : ℕ) (e : ℕ × A)
      → ascends k table ≡ true
      → get_elem? table m ≡ some e
      → name < e.0
      → IsAbove table name m
  IsAbove-entry k table name m e s g h i a le f = ground (arith, ascends-order k table m i e a)

  IsBelow-entry :
      (k : ℕ) (table : List (ℕ × A)) (name m : ℕ) (e : ℕ × A)
      → ascends k table ≡ true
      → get_elem? table m ≡ some e
      → e.0 < name
      → IsBelow table name (m + 1)
  IsBelow-entry k table name m e s g h i a le f = ground (arith, ascends-order k table i m a e)

  IsAbsent-between :
      (table : List (ℕ × A)) (name l end : ℕ)
      → IsBelow table name l
      → IsAbove table name end
      → end ≤ l
      → IsAbsent table name
  IsAbsent-between table name l end below above h i a g = ground (arith, below i a, above i a)

  module _ (fuel : ℕ) (table : List (ℕ × A)) (name l end m : ℕ) (e : ℕ × A) where
    search_frames_left :
        m ≡ (l + end - 1) / 2
        → get_elem? table m ≡ some e
        → name < e.0
        → l < m
        → search_frames (suc fuel) table name l end ≡ search_frames fuel table name l m
    unfolding search_frames
    search_frames_left eq g h k = ground arith

    search_frames_right :
        m ≡ (l + end - 1) / 2
        → get_elem? table m ≡ some e
        → e.0 < name
        → m + 1 < end
        → search_frames (suc fuel) table name l end ≡ search_frames fuel table name (m + 1) end
    unfolding search_frames
    search_frames_right eq g h k = ground arith

    search_frames_stop :
        m ≡ (l + end - 1) / 2
        → get_elem? table m ≡ some e
        → (e.0 ≡ name) ⊎ ((name < e.0) × (m ≤ l)) ⊎ ((e.0 < name) × (end ≤ m + 1))
        → search_frames (suc fuel) table name l end ≡ ok e
    unfolding search_frames
    search_frames_stop eq g h = ground arith

  search_frames-Answers :
      (fuel k : ℕ) (table : List (ℕ × A)) (name l end : ℕ)
      → ascends k table ≡ true
      → IsBelow table name l
      → IsAbove table name end
      → l < end
      → end ≤ length table
      → end ≤ l + fuel
      → Answers table name (search_frames fuel table name l end)
  unfolding search_frames
  search_frames-Answers zero k table name l end s below above le len f = absurd (omega arith)
  search_frames-Answers (suc fuel) k table name l end s below above le len f =
      let m = (l + end - 1) / 2 in
      let (e, g) = get_elem?-in table m (omega arith) in
      elim (trichotomy name e.0) [
        | inl less ↦ elim (order l m) [
          | inl more ↦
              subst (Answers table name)
                (sym (search_frames_left fuel table name l end m e refl g less more))
                (search_frames-Answers fuel k table name l m s below
                  (IsAbove-entry k table name m e s g less) more (omega arith) (omega arith))
          | inr done ↦ (
            e,
            m,
            search_frames_stop fuel table name l end m e refl g (inr (inl (less, done))),
            g,
            inr (
                IsAbsent-between table name l m below (IsAbove-entry k table name m e s g less)
                  done),
          )
        ]
        | inr (inl same) ↦ (
          e,
          m,
          search_frames_stop fuel table name l end m e refl g (inl (sym same)),
          g,
          inl (ground arith),
        )
        | inr (inr more) ↦ elim (order (m + 1) end) [
          | inl left ↦
              subst (Answers table name)
                (sym (search_frames_right fuel table name l end m e refl g more left))
                (search_frames-Answers fuel k table name (m + 1) end s
                  (IsBelow-entry k table name m e s g more) above left len (omega arith))
          | inr done ↦ (
            e,
            m,
            search_frames_stop fuel table name l end m e refl g (inr (inr (more, done))),
            g,
            inr (
                IsAbsent-between table name (m + 1) end (IsBelow-entry k table name m e s g more)
                  above done),
          )
        ]
      ]

  frame_at-scan_frames :
      (unknown : A) (table : List (ℕ × A)) (name : ℕ) (e : ℕ × A) (i : ℕ)
      → ascends 0 table ≡ true
      → get_elem? table i ≡ some e
      → (nat_eq e.0 name ≡ true) ⊎ IsAbsent table name
      → frame_at unknown name e ≡ scan_frames unknown table name
  frame_at-scan_frames unknown table name e i s g (inl same) =
      rw (frame_at, same) (sym (scan_frames-present unknown 0 table name i e s g same))
  frame_at-scan_frames unknown table name e i s g (inr absent) =
      rw (frame_at, absent i e g) (sym (scan_frames-absent unknown table name absent))

  -- A search through a table whose names ascend finds what the scan finds.
  get_frame-scan_frames :
      (unknown : A) (table : List (ℕ × A)) (name : ℕ)
      → ascends 0 table ≡ true
      → 0 < length table
      → get_frame unknown table name ≡ ok (scan_frames unknown table name)
  unfolding get_frame
  get_frame-scan_frames unknown table name s h =
      let (e, i, eq, g, o) =
        search_frames-Answers (length table) 0 table name 0 (length table) s
          (λ i a l. absurd (omega arith))
          (λ i a l f. absurd (ground (arith, get_elem?-out table i))) h (omega arith)
          (omega arith) in
      rw eq (ap ok (frame_at-scan_frames unknown table name e i s g o))

-- The search for a frame's name by halving the table id3v24_frames finds what a scan of the table from
-- its start finds, for every name, and reads no entry outside of the table.
pub id3v24_get_frame-scan_frames :
    (name : ℕ) → id3v24_get_frame name ≡ ok (scan_frames id3v24_unknown id3v24_frames name)
unfolding id3v24_frames
id3v24_get_frame-scan_frames name =
    get_frame-scan_frames id3v24_unknown id3v24_frames name refl (omega arith)

-- The search for a frame's name by halving the table id3v2_frames finds what a scan of the table from
-- its start finds, for every name, and reads no entry outside of the table.
pub id3v2_get_frame-scan_frames :
    (name : ℕ) → id3v2_get_frame name ≡ ok (scan_frames id3v2_unknown id3v2_frames name)
unfolding id3v2_frames
id3v2_get_frame-scan_frames name =
    get_frame-scan_frames id3v2_unknown id3v2_frames name refl (omega arith)
