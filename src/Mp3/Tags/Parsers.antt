-- ===== src/Mp3/Tags/Parsers.antt =====
-- The parsers of one tag, and parse_id3v2: they come to an end, and stay inside of the buffer.
use tracker_miners.Base.{
  ℕ, ◌+◌, ◌-◌, ◌≤◌, ◌<◌, ◌≡◌, Bool, true, false, not, Option, none, some, List, ltb, arith, length,
}
use tracker_miners.Mp3.{
  Fault, assertion_failed, Outcome, ok, ◌>>=◌, bit, read, extract_uint32, extract_uint32_7bit,
}
use tracker_miners.Mp3.Reads.{
  Within, Any, Within-bind, Within-bind_known, Within-if, Reads, read-bind, extract_uint32-Within,
  extract_uint32_7bit-Within,
}
use tracker_miners.Mp3.Tables.{Id3v24frame}
use tracker_miners.Mp3.Tags.{
  Call, get_id3v24_tags, get_id3v23_tags, Turn, frame_loop, is_tag, first_frame, parse_frames,
  parse_tag, parse_id3v24, parse_id3v23, parse_id3v20, drop, parse_at,
}
use tracker_miners.Mp3.Tags.Frames.{
  Advances, frame_loop-Within, frame_turn-Within, frame_turn_v20-Within,
}

-- the next offset is inside of the buffer, or at its end
abbrev pub IsInside : List ℕ → List Call × ℕ → Type 0
IsInside buffer (calls, offset) = offset ≤ length buffer

module _ (allowed : Fault → Type 0) where
  -- What a parser needs of a buffer: its header can be read, and behind a tag size that it accepts the
  -- tag and one more byte, and the tag is followed by `spare` bytes.
  pub record Room (spare : ℕ) (buffer : List ℕ) : Type 0 where
    pub header_reads : 16 ≤ length buffer → Reads allowed buffer 16
    pub tag_reads :
        (tsize : ℕ)
        → extract_uint32_7bit buffer 6 ≡ ok tsize
        → tsize + 10 ≤ length buffer
        → Reads allowed buffer (tsize + 11)
    pub asserts :
        (tsize : ℕ)
        → extract_uint32_7bit buffer 6 ≡ ok tsize
        → length buffer < tsize + 10 + spare
        → allowed assertion_failed

  module _ (buffer : List ℕ) where
    is_tag-Within :
        (version : ℕ)
        → (16 ≤ length buffer → Reads allowed buffer 16)
        → Within allowed (λ b. b ≡ true → 16 ≤ length buffer) (is_tag 16 version buffer)
    unfolding is_tag
    is_tag-Within version reads =
        Within-if allowed Tagged (ltb (length buffer) 16) _ _ (λ e. λ f. absurd (ground (arith, f)))
          λ e. byte (large e) 0 (omega arith) _ λ a. byte (large e) 1 (omega arith) _ λ b.
            byte (large e) 2 (omega arith) _ λ c.
              byte (large e) 3 (omega arith) _
                λ d. byte (large e) 4 (omega arith) _ λ f. λ g. large e
      where
        Tagged : Bool → Type 0
        Tagged b = b ≡ true → 16 ≤ length buffer

        large : ltb (length buffer) 16 ≡ false → 16 ≤ length buffer
        large e = ground arith

        byte :
            16 ≤ length buffer
            → (i : ℕ) → i < 16
            → (f : ℕ → Outcome Bool) → ((a : ℕ) → Within allowed Tagged (f a))
            → Within allowed Tagged (read buffer i >>= f)
        byte l i h f k = read-bind allowed buffer 16 (reads l) i h Tagged f k

    parse_frames-Within :
        (turn : ℕ → Outcome Turn) (tsize offset_delta : ℕ) (start : Option ℕ)
        → ((p : ℕ) → p < tsize + 10 → Within allowed (Advances p) (turn p))
        → tsize + 10 ≤ length buffer
        → offset_delta ≤ length buffer
        → Within allowed (IsInside buffer) (parse_frames turn tsize offset_delta start)
    parse_frames-Within turn tsize offset_delta none h k d = d
    parse_frames-Within turn tsize offset_delta (some pos) h k d =
        Within-bind allowed Any (IsInside buffer) (frame_loop turn (tsize + 10) (tsize + 10) pos) _
          (frame_loop-Within allowed turn (tsize + 10) (tsize + 10) pos (λ p l m. h p m)
            (omega arith))
          (λ c u. k)

    parse_id3v20-Within :
        (offset_delta : ℕ)
        → Room 5 buffer
        → offset_delta ≤ length buffer
        → Within allowed (IsInside buffer) (parse_id3v20 buffer offset_delta)
    unfolding parse_id3v20
    parse_id3v20-Within offset_delta room d =
        Within-bind allowed _ (IsInside buffer) (is_tag 16 0x02 buffer) _
          (is_tag-Within 0x02 room.header_reads)
          λ tag u.
            Within-if allowed (IsInside buffer) (not tag) _ _ (λ e. d)
              λ e.
                let long = u (ground arith) in
                read-bind allowed buffer 16 (room.header_reads long) 5 (omega arith)
                  (IsInside buffer) _
                  λ flags.
                    Within-bind_known allowed Any (IsInside buffer) (extract_uint32_7bit buffer 6) _
                      (extract_uint32_7bit-Within allowed buffer 16 (room.header_reads long) 6
                        (omega arith))
                      λ tsize known u.
                        Within-if allowed (IsInside buffer) (ltb (length buffer - 10) tsize) _ _
                          (λ f. d)
                          λ f.
                            parse_frames-Within _ tsize offset_delta (some 10)
                              (λ p l.
                                frame_turn_v20-Within allowed buffer (tsize + 11)
                                  (room.tag_reads tsize known (ground arith)) _ tsize p
                                  (omega arith) l (λ m. room.asserts tsize known (omega arith))
                                  (omega arith))
                              (ground arith) d

    abbrev Sizes : (List ℕ → ℕ → Outcome ℕ) → Type 0
    Sizes size_at =
        (bound : ℕ)
        → Reads allowed buffer bound
        → (p : ℕ) → p + 3 < bound
        → Within allowed Any (size_at buffer p)

    first_frame-Within :
        (ext_header : Bool) (size_at : List ℕ → ℕ → Outcome ℕ) (tsize : ℕ)
        → Sizes size_at
        → Reads allowed buffer 16
        → Within allowed Any (first_frame ext_header size_at buffer tsize)
    first_frame-Within false size_at tsize sizes reads = tt
    first_frame-Within true size_at tsize sizes reads =
        Within-bind allowed Any Any (size_at buffer 10) _ (sizes 16 reads 10 (omega arith))
          λ n u. tt

    parse_tag-Within :
        (version : ℕ) (tags : Id3v24frame → List ℕ → Call) (footers : Bool)
        (size_at : List ℕ → ℕ → Outcome ℕ) (offset_delta : ℕ)
        → Sizes size_at
        → Room 9 buffer
        → offset_delta ≤ length buffer
        → Within allowed
            (IsInside buffer)
            (parse_tag version tags footers size_at buffer offset_delta)
    unfolding parse_tag
    parse_tag-Within version tags footers size_at offset_delta sizes room d =
        Within-bind allowed _ (IsInside buffer) (is_tag 16 version buffer) _
          (is_tag-Within version room.header_reads)
          λ tag u.
            Within-if allowed (IsInside buffer) (not tag) _ _ (λ e. d)
              λ e.
                let long = u (ground arith) in
                read-bind allowed buffer 16 (room.header_reads long) 5 (omega arith)
                  (IsInside buffer) _
                  λ flags.
                    Within-if allowed (IsInside buffer) (bit 0x20 flags) _ _ (λ f. d)
                      λ f.
                        Within-bind_known allowed Any (IsInside buffer)
                          (extract_uint32_7bit buffer 6) _
                          (extract_uint32_7bit-Within allowed buffer 16 (room.header_reads long) 6
                            (omega arith))
                          λ tsize known u.
                            Within-if allowed (IsInside buffer) (ltb (length buffer - 10) tsize) _ _
                              (λ f. d)
                              λ f.
                                Within-bind allowed Any (IsInside buffer)
                                  (first_frame (bit 0x40 flags) size_at buffer tsize) _
                                  (first_frame-Within (bit 0x40 flags) size_at tsize sizes
                                    (room.header_reads long))
                                  λ start u.
                                    parse_frames-Within _ tsize offset_delta start
                                      (λ p l.
                                        frame_turn-Within allowed buffer (tsize + 11)
                                          (room.tag_reads tsize known (ground arith)) tags footers
                                          size_at _ tsize p
                                          (sizes (tsize + 11)
                                            (room.tag_reads tsize known (ground arith)))
                                          (omega arith) l
                                          (λ m. room.asserts tsize known (omega arith))
                                          (omega arith))
                                      (ground arith) d

    parse_id3v24-Within :
        (offset_delta : ℕ)
        → Room 9 buffer
        → offset_delta ≤ length buffer
        → Within allowed (IsInside buffer) (parse_id3v24 buffer offset_delta)
    parse_id3v24-Within offset_delta =
        parse_tag-Within 0x04 get_id3v24_tags true extract_uint32_7bit offset_delta
          (λ bound reads p h. extract_uint32_7bit-Within allowed buffer bound reads p h)

    parse_id3v23-Within :
        (offset_delta : ℕ)
        → Room 9 buffer
        → offset_delta ≤ length buffer
        → Within allowed (IsInside buffer) (parse_id3v23 buffer offset_delta)
    parse_id3v23-Within offset_delta =
        parse_tag-Within 0x03 get_id3v23_tags false extract_uint32 offset_delta
          (λ bound reads p h. extract_uint32-Within allowed buffer bound reads p h)

  pub parse_at-Within :
      (buffer : List ℕ) (offset : ℕ)
      → Room 9 (drop offset buffer)
      → Room 5 (drop offset buffer)
      → Within allowed (IsInside (drop offset buffer)) (parse_at buffer offset)
  unfolding parse_at
  parse_at-Within buffer offset room room_v20 =
      let rest = drop offset buffer in
      Within-bind allowed (IsInside rest) (IsInside rest) (parse_id3v24 rest 0) _
        (parse_id3v24-Within rest 0 room (omega arith))
        λ v24 d.
          Within-bind allowed (IsInside rest) (IsInside rest) (parse_id3v23 rest v24.1) _
            (parse_id3v23-Within rest v24.1 room d)
            λ v23 d.
              Within-bind allowed (IsInside rest) (IsInside rest) (parse_id3v20 rest v23.1) _
                (parse_id3v20-Within rest v23.1 room_v20 d) λ v20 d. d
