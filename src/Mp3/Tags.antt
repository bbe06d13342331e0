-- ===== src/Mp3/Tags.antt =====
-- parse_id3v24, parse_id3v23, parse_id3v20 and parse_id3v2.
-- A parser gives the calls that it makes with the frames, and offset_delta.
pub mod Frames
pub mod Parsers
pub mod Printed
use tracker_miners.Base.{
  ℕ, zero, suc, ◌+◌, ◌-◌, Bool, true, false, not, ◌&&◌, ◌||◌, Option, none, some, List, [], ◌∷◌,
  ◌++◌, nat_eq, ltb, if◌then◌else◌, length,
}
use tracker_miners.Mp3.{
  Outcome, ok, fault, assertion_failed, stuck, ◌>>=◌, bit, read, extract_uint32, extract_uint16,
  extract_uint32_7bit, extract_uint32_3byte,
}
use tracker_miners.Mp3.Unsync.{un_unsync}
use tracker_miners.Mp3.Tables.{
  Id3v24frame, id3v24_unknown, Id3v2frame, id3v2_unknown, id3v24_get_frame, id3v2_get_frame,
}

-- the calls of the functions that read a frame's content, `size` bytes at `data`
pub data Call : Type 0 where
  get_id3v24_tags get_id3v23_tags : Id3v24frame → List ℕ → Call
  get_id3v20_tags : Id3v2frame → List ℕ → Call

-- what a turn of a parser's loop comes to: a break, a next position without a call, or a call and a
-- next position
pub data Turn : Type 0 where
  break : Turn
  skip : ℕ → Turn
  hand : Call → ℕ → Turn

-- the `n` bytes at `p`
unfoldable pub read_bytes : ℕ → List ℕ → ℕ → Outcome (List ℕ)
read_bytes zero buffer p = ok []
read_bytes (suc n) buffer p = do
  b ← read buffer p
  rest ← read_bytes n buffer (p + 1)
  ok (b ∷ rest)

unfoldable pub frame_content : Bool → List ℕ → ℕ → ℕ → Outcome (List ℕ)
frame_content unsynced buffer pos csize =
    if unsynced then un_unsync buffer pos csize else read_bytes csize buffer pos

unfoldable pub hand_frame : (List ℕ → Call) → Bool → List ℕ → ℕ → ℕ → Outcome Turn
hand_frame tags unsynced buffer pos csize = do
  content ← frame_content unsynced buffer pos csize
  ok (hand (tags content) (pos + csize))

-- the part of a turn of parse_id3v24 and parse_id3v23 behind the frame's header, `pos` past it
unfoldable pub known_frame : (List ℕ → Call) → Bool → List ℕ → ℕ → ℕ → ℕ → ℕ → Outcome Turn
known_frame tags unsync buffer tsize pos csize flags =
    if ltb (tsize + 10) (pos + csize)
    then ok break
    else if nat_eq csize 0
    then ok (skip pos)
    else if bit 0x80 flags || bit 0x40 flags
    then ok (skip (pos + csize))
    else if bit 0x20 flags
    then hand_frame tags (bit 0x02 flags || unsync) buffer (pos + 1) (csize - 1)
    else hand_frame tags (bit 0x02 flags || unsync) buffer pos csize

abbrev pub sort_frame :
    (Id3v24frame → List ℕ → Call) → Bool → List ℕ → ℕ → ℕ → ℕ → ℕ → Id3v24frame → Outcome Turn
sort_frame tags unsync buffer tsize pos csize flags id3v24_unknown = ok (skip (pos + csize))
sort_frame tags unsync buffer tsize pos csize flags frame =
    known_frame (tags frame) unsync buffer tsize pos csize flags

-- The name of the frame at `pos` is that of an ID3v2 footer; only parse_id3v24 looks for it.
abbrev pub is_footer : Bool → List ℕ → ℕ → Outcome Bool
is_footer false buffer pos = ok false
is_footer true buffer pos = do name ← extract_uint32_3byte buffer pos; ok (nat_eq name 0x334449)

-- A turn of the loop of parse_id3v24 and parse_id3v23, which differ in the call, in the footer and in how
-- a frame's size is written.
unfoldable pub frame_turn :
    (Id3v24frame → List ℕ → Call)
    → Bool
    → (List ℕ → ℕ → Outcome ℕ)
    → Bool
    → List ℕ
    → ℕ
    → ℕ
    → Outcome Turn
frame_turn tags footers size_at unsync buffer tsize pos =
    if ltb (length buffer - 10) pos
    then fault assertion_failed
    else if ltb (tsize + 10) (pos + 10)
    then ok break
    else do
      first ← read buffer pos
      footer ← is_footer footers buffer pos
      if nat_eq first 0 || footer then ok break else do
        name ← extract_uint32 buffer pos
        frame ← id3v24_get_frame name
        csize ← size_at buffer (pos + 4)
        if ltb (length buffer - 10 - pos) csize then ok break else do
          flags ← extract_uint16 buffer (pos + 8)
          sort_frame tags unsync buffer tsize (pos + 10) csize flags frame

abbrev pub sort_frame_v20 : Bool → List ℕ → ℕ → ℕ → ℕ → Id3v2frame → Outcome Turn
sort_frame_v20 unsync buffer tsize pos csize id3v2_unknown = ok (skip (pos + csize))
sort_frame_v20 unsync buffer tsize pos csize frame =
    if ltb (tsize + 10) (pos + csize)
    then ok break
    else hand_frame (get_id3v20_tags frame) unsync buffer pos csize

-- a turn of the loop of parse_id3v20
unfoldable pub frame_turn_v20 : Bool → List ℕ → ℕ → ℕ → Outcome Turn
frame_turn_v20 unsync buffer tsize pos =
    if ltb (length buffer - 6) pos
    then fault assertion_failed
    else if ltb (tsize + 10) (pos + 6)
    then ok break
    else do
      first ← read buffer pos
      if nat_eq first 0 then ok break else do
        name ← extract_uint32_3byte buffer pos
        frame ← id3v2_get_frame name
        csize ← extract_uint32_3byte buffer (pos + 3)
        if ltb (length buffer - pos - 6) csize
            then ok break
            else sort_frame_v20 unsync buffer tsize (pos + 6) csize frame

-- The loop of a parser whose turns are `turn`, while `pos` is below `end`.
abbrev pub follow : (ℕ → Outcome (List Call)) → Turn → Outcome (List Call)
follow next break = ok []
follow next (skip pos) = next pos
follow next (hand call pos) = next pos >>= λ calls. ok (call ∷ calls)

unfoldable pub frame_loop : (ℕ → Outcome Turn) → ℕ → ℕ → ℕ → Outcome (List Call)
frame_loop turn zero end pos = if ltb pos end then fault stuck else ok []
frame_loop turn (suc fuel) end pos = elim (ltb pos end) [
  | false ↦ ok []
  | true ↦ turn pos >>= follow (frame_loop turn fuel end)
]

-- the test of a tag's first five bytes; `least` is the smallest size of the buffer that passes
unfoldable pub is_tag : ℕ → ℕ → List ℕ → Outcome Bool
is_tag least version buffer = if ltb (length buffer) least then ok false else do
  a ← read buffer 0
  b ← read buffer 1
  c ← read buffer 2
  d ← read buffer 3
  e ← read buffer 4
  ok (nat_eq a 0x49 && nat_eq b 0x44 && nat_eq c 0x33 && nat_eq d version && nat_eq e 0x00)

-- where the frames start, behind an extended header where the tag has one
abbrev pub first_frame : Bool → (List ℕ → ℕ → Outcome ℕ) → List ℕ → ℕ → Outcome (Option ℕ)
first_frame false size_at buffer tsize = ok (some 10)
first_frame true size_at buffer tsize = do
  ext_header_size ← size_at buffer 10
  ok (
      if ltb (length buffer - 10 - tsize) ext_header_size
      then none
      else some (10 + ext_header_size))

-- the parser behind its checks, where the frames start at the position given
abbrev pub parse_frames : (ℕ → Outcome Turn) → ℕ → ℕ → Option ℕ → Outcome (List Call × ℕ)
parse_frames turn tsize offset_delta none = ok ([], offset_delta)
parse_frames turn tsize offset_delta (some pos) = do
  calls ← frame_loop turn (tsize + 10) (tsize + 10) pos
  ok (calls, tsize + 10)

-- parse_id3v24 and parse_id3v23
unfoldable pub parse_tag :
    ℕ
    → (Id3v24frame → List ℕ → Call)
    → Bool
    → (List ℕ → ℕ → Outcome ℕ)
    → List ℕ
    → ℕ
    → Outcome (List Call × ℕ)
parse_tag version tags footers size_at buffer offset_delta = do
  tag ← is_tag 16 version buffer
  if not tag then ok ([], offset_delta) else do
    flags ← read buffer 5
    if bit 0x20 flags then ok ([], offset_delta) else do
      tsize ← extract_uint32_7bit buffer 6
      if ltb (length buffer - 10) tsize then ok ([], offset_delta) else do
        start ← first_frame (bit 0x40 flags) size_at buffer tsize
        parse_frames (frame_turn tags footers size_at (bit 0x80 flags) buffer tsize) tsize
            offset_delta start

abbrev pub parse_id3v24 : List ℕ → ℕ → Outcome (List Call × ℕ)
parse_id3v24 buffer offset_delta =
    parse_tag 0x04 get_id3v24_tags true extract_uint32_7bit buffer offset_delta

abbrev pub parse_id3v23 : List ℕ → ℕ → Outcome (List Call × ℕ)
parse_id3v23 buffer offset_delta =
    parse_tag 0x03 get_id3v23_tags false extract_uint32 buffer offset_delta

unfoldable pub parse_id3v20 : List ℕ → ℕ → Outcome (List Call × ℕ)
parse_id3v20 buffer offset_delta = do
  tag ← is_tag 16 0x02 buffer
  if not tag then ok ([], offset_delta) else do
    flags ← read buffer 5
    tsize ← extract_uint32_7bit buffer 6
    if ltb (length buffer - 10) tsize
        then ok ([], offset_delta)
        else parse_frames (frame_turn_v20 (bit 0x80 flags) buffer tsize) tsize offset_delta
            (some 10)

abbrev pub drop : ℕ → List ℕ → List ℕ
drop zero xs = xs
drop (suc n) [] = []
drop (suc n) (x ∷ xs) = drop n xs

-- the three parsers at one offset
unfoldable pub parse_at : List ℕ → ℕ → Outcome (List Call × ℕ)
parse_at buffer offset = do
  v24 ← parse_id3v24 (drop offset buffer) 0
  v23 ← parse_id3v23 (drop offset buffer) v24.1
  v20 ← parse_id3v20 (drop offset buffer) v23.1
  ok (v24.0 ++ (v23.0 ++ v20.0), v20.1)

abbrev pub before : List Call → List Call × ℕ → List Call × ℕ
before calls (later, offset) = (calls ++ later, offset)

unfoldable pub parse_id3v2_loop : ℕ → List ℕ → ℕ → Outcome (List Call × ℕ)
parse_id3v2_loop zero buffer offset = fault stuck
parse_id3v2_loop (suc fuel) buffer offset = parse_at buffer offset >>= λ at. elim (nat_eq at.1 0) [
  | true ↦ ok (at.0, offset)
  | false ↦ parse_id3v2_loop fuel buffer (offset + at.1) >>= λ later. ok (before at.0 later)
]

-- It gives the offset that the code returns and keeps as `id3v2_size`.
unfoldable pub parse_id3v2 : List ℕ → Outcome (List Call × ℕ)
parse_id3v2 buffer = parse_id3v2_loop (suc (length buffer)) buffer 0
