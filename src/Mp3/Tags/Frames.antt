-- ===== src/Mp3/Tags/Frames.antt =====
-- The turns and the loops of the parsers: what they read, where they go on, and that they come to an end.
use tracker_miners.Base.{
  ℕ, zero, suc, ◌+◌, ◌-◌, ◌≤◌, ◌<◌, sym, subst, Bool, true, false, ◌||◌, List, nat_eq, ltb, ltb→lt,
  arith, length,
}
use tracker_miners.Mp3.{
  Fault, assertion_failed, Outcome, bit, extract_uint32, extract_uint16, extract_uint32_3byte,
}
use tracker_miners.Mp3.Reads.{
  Within, Any, Within-bind, Within-if, Within-elim, Reads, read-bind, extract_uint32-Within,
  extract_uint16-Within, extract_uint32_3byte-Within,
}
use tracker_miners.Mp3.Unsync.{un_unsync-Within}
use tracker_miners.Mp3.Tables.{
  Id3v24frame, id3v24_unknown, Id3v2frame, id3v2_unknown, id3v24_get_frame, id3v2_get_frame,
}
use tracker_miners.Mp3.Tables.Lookup.{id3v24_get_frame-scan_frames, id3v2_get_frame-scan_frames}
use tracker_miners.Mp3.Tags.{
  Call, get_id3v20_tags, Turn, break, skip, hand, read_bytes, frame_content, hand_frame,
  known_frame, sort_frame, is_footer, frame_turn, sort_frame_v20, frame_turn_v20, follow,
  frame_loop,
}

-- a turn goes on, if at all, behind `pos`
abbrev pub Advances : ℕ → Turn → Type 0
Advances pos break = Unit
Advances pos (skip p) = pos < p
Advances pos (hand call p) = pos < p

module _ (allowed : Fault → Type 0) where
  abbrev Lookups : Type 0
  Lookups =
      ((name : ℕ) → Within allowed Any (id3v24_get_frame name))
      × ((name : ℕ) → Within allowed Any (id3v2_get_frame name))

  get_frame-Within : Lookups
  get_frame-Within = (
    λ name. subst (Within allowed Any) (sym (id3v24_get_frame-scan_frames name)) tt,
    λ name. subst (Within allowed Any) (sym (id3v2_get_frame-scan_frames name)) tt,
  )

  follow-Within :
      (next : ℕ → Outcome (List Call)) (pos : ℕ) (turn : Turn)
      → Advances pos turn
      → ((p : ℕ) → pos < p → Within allowed Any (next p))
      → Within allowed Any (follow next turn)
  follow-Within next pos break a h = tt
  follow-Within next pos (skip p) a h = h p a
  follow-Within next pos (hand call p) a h =
      Within-bind allowed Any Any (next p) _ (h p a) (λ c u. tt)

  pub frame_loop-Within :
      (turn : ℕ → Outcome Turn) (fuel end pos : ℕ)
      → ((p : ℕ) → pos ≤ p → p < end → Within allowed (Advances p) (turn p))
      → end ≤ pos + fuel
      → Within allowed Any (frame_loop turn fuel end pos)
  unfolding frame_loop
  frame_loop-Within turn zero end pos h k =
      Within-if allowed Any (ltb pos end) _ _ (λ e. absurd (ground (arith, ltb→lt pos end e)))
        (λ e. tt)
  frame_loop-Within turn (suc fuel) end pos h k =
      Within-elim allowed Any (ltb pos end) _ _
        (λ e.
          Within-bind allowed (Advances pos) Any (turn pos) _
            (h pos (omega arith) (ltb→lt pos end e))
            λ t a.
              follow-Within (frame_loop turn fuel end) pos t a
                λ p l. frame_loop-Within turn fuel end p (λ q m. h q (omega arith)) (omega arith))
        (λ e. tt)

  module _ (buffer : List ℕ) (bound : ℕ) (reads : Reads allowed buffer bound) where
    read_bytes-Within : (n p : ℕ) → p + n ≤ bound → Within allowed Any (read_bytes n buffer p)
    unfolding read_bytes
    read_bytes-Within zero p h = tt
    read_bytes-Within (suc n) p h = read-bind allowed buffer bound reads p (omega arith) Any _ λ b.
        Within-bind allowed Any Any (read_bytes n buffer (p + 1)) _
          (read_bytes-Within n (p + 1) (omega arith)) λ r u. tt

    hand_frame-Within :
        (tags : List ℕ → Call) (unsynced : Bool) (start pos csize : ℕ)
        → pos + csize < bound
        → start < pos
        → Within allowed (Advances start) (hand_frame tags unsynced buffer pos csize)
    unfolding hand_frame frame_content
    hand_frame-Within tags unsynced start pos csize h k =
        Within-bind allowed Any (Advances start) (frame_content unsynced buffer pos csize) _
          (Within-if allowed Any unsynced _ _
            (λ e. un_unsync-Within allowed buffer bound reads pos csize h)
            (λ e. read_bytes-Within csize pos (omega arith)))
          (λ c u. omega arith)

    known_frame-Within :
        (tags : List ℕ → Call) (unsync : Bool) (tsize start pos csize flags : ℕ)
        → tsize + 10 < bound
        → start < pos
        → Within allowed (Advances start) (known_frame tags unsync buffer tsize pos csize flags)
    unfolding known_frame
    known_frame-Within tags unsync tsize start pos csize flags h k =
        Within-if allowed (Advances start) (ltb (tsize + 10) (pos + csize)) _ _ (λ e. tt)
          λ fits.
            Within-if allowed (Advances start) (nat_eq csize 0) _ _ (λ e. k)
              λ full.
                Within-if allowed (Advances start) (bit 0x80 flags || bit 0x40 flags) _ _
                  (λ e. omega arith)
                  λ plain.
                    Within-if allowed (Advances start) (bit 0x20 flags) _ _
                      (λ e.
                        hand_frame-Within tags _ start (pos + 1) (csize - 1) (ground arith)
                          (omega arith))
                      (λ e. hand_frame-Within tags _ start pos csize (ground arith) k)

    sort_frame-Within :
        (tags : Id3v24frame → List ℕ → Call) (unsync : Bool) (tsize start pos csize flags : ℕ)
        (frame : Id3v24frame)
        → tsize + 10 < bound
        → start < pos
        → Within allowed
            (Advances start)
            (sort_frame tags unsync buffer tsize pos csize flags frame)
    sort_frame-Within tags unsync tsize start pos csize flags id3v24_unknown h k = omega arith
    sort_frame-Within tags unsync tsize start pos csize flags frame h k =
        known_frame-Within (tags frame) unsync tsize start pos csize flags h k

    sort_frame_v20-Within :
        (unsync : Bool) (tsize start pos csize : ℕ) (frame : Id3v2frame)
        → tsize + 10 < bound
        → start < pos
        → Within allowed (Advances start) (sort_frame_v20 unsync buffer tsize pos csize frame)
    sort_frame_v20-Within unsync tsize start pos csize id3v2_unknown h k = omega arith
    sort_frame_v20-Within unsync tsize start pos csize frame h k =
        Within-if allowed (Advances start) (ltb (tsize + 10) (pos + csize)) _ _ (λ e. tt)
          λ fits. hand_frame-Within (get_id3v20_tags frame) unsync start pos csize (ground arith) k

    is_footer-Within :
        (footers : Bool) (pos : ℕ)
        → pos + 2 < bound
        → Within allowed Any (is_footer footers buffer pos)
    is_footer-Within false pos h = tt
    is_footer-Within true pos h =
        Within-bind allowed Any Any (extract_uint32_3byte buffer pos) _
          (extract_uint32_3byte-Within allowed buffer bound reads pos h) (λ n u. tt)

    pub frame_turn-Within :
        (tags : Id3v24frame → List ℕ → Call) (footers : Bool) (size_at : List ℕ → ℕ → Outcome ℕ)
        (unsync : Bool) (tsize pos : ℕ)
        → ((p : ℕ) → p + 3 < bound → Within allowed Any (size_at buffer p))
        → tsize + 10 < bound
        → pos < tsize + 10
        → (length buffer < tsize + 19 → allowed assertion_failed)
        → 10 ≤ length buffer
        → Within allowed (Advances pos) (frame_turn tags footers size_at unsync buffer tsize pos)
    unfolding frame_turn
    frame_turn-Within tags footers size_at unsync tsize pos sizes h k asserts least =
        Within-if allowed (Advances pos) (ltb (length buffer - 10) pos) _ _
          (λ e. asserts (ground (arith, ltb→lt (length buffer - 10) pos e)))
          λ e.
            Within-if allowed (Advances pos) (ltb (tsize + 10) (pos + 10)) _ _ (λ f. tt)
              λ f. read-bind allowed buffer bound reads pos (omega arith) (Advances pos) _ λ first.
                Within-bind allowed Any (Advances pos) (is_footer footers buffer pos) _
                  (is_footer-Within footers pos (ground arith))
                  λ footer u.
                    Within-if allowed (Advances pos) (nat_eq first 0 || footer) _ _ (λ g. tt)
                      λ g.
                        Within-bind allowed Any (Advances pos) (extract_uint32 buffer pos) _
                          (extract_uint32-Within allowed buffer bound reads pos (ground arith))
                          λ name u.
                            Within-bind allowed Any (Advances pos) (id3v24_get_frame name) _
                              (get_frame-Within.0 name)
                              λ frame u.
                                Within-bind allowed Any (Advances pos) (size_at buffer (pos + 4)) _
                                  (sizes (pos + 4) (ground arith))
                                  λ csize u.
                                    Within-if allowed (Advances pos)
                                      (ltb (length buffer - 10 - pos) csize) _ _ (λ i. tt)
                                      λ i.
                                        Within-bind allowed Any (Advances pos)
                                          (extract_uint16 buffer (pos + 8)) _
                                          (extract_uint16-Within allowed buffer bound reads
                                            (pos + 8) (ground arith))
                                          λ flags u.
                                            sort_frame-Within tags unsync tsize pos (pos + 10) csize
                                              flags frame h (omega arith)

    pub frame_turn_v20-Within :
        (unsync : Bool) (tsize pos : ℕ)
        → tsize + 10 < bound
        → pos < tsize + 10
        → (length buffer < tsize + 15 → allowed assertion_failed)
        → 6 ≤ length buffer
        → Within allowed (Advances pos) (frame_turn_v20 unsync buffer tsize pos)
    unfolding frame_turn_v20
    frame_turn_v20-Within unsync tsize pos h k asserts least =
        Within-if allowed (Advances pos) (ltb (length buffer - 6) pos) _ _
          (λ e. asserts (ground (arith, ltb→lt (length buffer - 6) pos e)))
          λ e.
            Within-if allowed (Advances pos) (ltb (tsize + 10) (pos + 6)) _ _ (λ f. tt)
              λ f. read-bind allowed buffer bound reads pos (omega arith) (Advances pos) _ λ first.
                Within-if allowed (Advances pos) (nat_eq first 0) _ _ (λ g. tt)
                  λ g.
                    Within-bind allowed Any (Advances pos) (extract_uint32_3byte buffer pos) _
                      (extract_uint32_3byte-Within allowed buffer bound reads pos (ground arith))
                      λ name u.
                        Within-bind allowed Any (Advances pos) (id3v2_get_frame name) _
                          (get_frame-Within.1 name)
                          λ frame u.
                            Within-bind allowed Any (Advances pos)
                              (extract_uint32_3byte buffer (pos + 3)) _
                              (extract_uint32_3byte-Within allowed buffer bound reads (pos + 3)
                                (ground arith))
                              λ csize u.
                                Within-if allowed (Advances pos)
                                  (ltb (length buffer - pos - 6) csize) _ _ (λ i. tt)
                                  λ i.
                                    sort_frame_v20-Within unsync tsize pos (pos + 6) csize frame h
                                      (omega arith)
