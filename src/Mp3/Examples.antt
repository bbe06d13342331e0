-- ===== src/Mp3/Examples.antt =====
-- The theorems on the ID3v2 parsers at short buffers.
use tracker_miners.Base.{ℕ, ◌≡◌, refl, true, false, inl, inr, List, [], ◌∷◌, arith}
use tracker_miners.Mp3.{ok, fault, assertion_failed, read, extract_uint32_7bit}
use tracker_miners.Mp3.Reads.{Within}
use tracker_miners.Mp3.Unsync.{un_unsync, un_unsync-stuffed}
use tracker_miners.Mp3.Tables.{
  Id3v24frame, id3v24_tit2, id3v24_trck, id3v24_frames, id3v2_tt2, id3v2_frames, id3v24_get_frame,
  id3v2_get_frame,
}
use tracker_miners.Mp3.Tables.Lookup.{id3v24_get_frame-scan_frames, id3v2_get_frame-scan_frames}
use tracker_miners.Mp3.Tags.{
  Call, get_id3v24_tags, get_id3v23_tags, parse_id3v24, parse_id3v23, parse_at, parse_id3v2,
}
use tracker_miners.Mp3.Tags.Parsers.{IsInside}
use tracker_miners.Mp3.Tags.Printed.{byte_256, byte_128, tag_bytes}
use tracker_miners.Mp3.Tags.Printed.RoundTrip.{
  parse_id3v24-tag_bytes, parse_id3v23-tag_bytes, parse_id3v24-assertion_failed,
}
use tracker_miners.Mp3.Safe.{IsCrash, parse_id3v2-IsInside, parse_at-IsInside}

-- two frames, one of them with a byte 0xFF in it
abbrev two_frames : List (Id3v24frame × List ℕ)
two_frames = (id3v24_tit2, 3 ∷ 65 ∷ 0xff ∷ []) ∷ (id3v24_trck, 3 ∷ 49 ∷ []) ∷ []

abbrev ten_bytes : List ℕ
ten_bytes = 1 ∷ 2 ∷ 3 ∷ 4 ∷ 5 ∷ 6 ∷ 7 ∷ 8 ∷ 9 ∷ 10 ∷ []

abbrev small_tag : List ℕ
small_tag = tag_bytes 0x04 byte_128 true two_frames 4 ten_bytes

parse_id3v24-tag_bytes_example :
    parse_id3v24 small_tag 0
    ≡ ok (
      get_id3v24_tags id3v24_tit2 (3 ∷ 65 ∷ 0xff ∷ [])
          ∷ get_id3v24_tags id3v24_trck (3 ∷ 49 ∷ [])
          ∷ [],
      40,
    )
parse_id3v24-tag_bytes_example =
    parse_id3v24-tag_bytes true two_frames 4 ten_bytes 0 refl (omega arith) (omega arith)
      (inr (omega arith))

parse_id3v23-tag_bytes_example :
    parse_id3v23 (tag_bytes 0x03 byte_256 false two_frames 0 []) 0
    ≡ ok (
      get_id3v23_tags id3v24_tit2 (3 ∷ 65 ∷ 0xff ∷ [])
          ∷ get_id3v23_tags id3v24_trck (3 ∷ 49 ∷ [])
          ∷ [],
      35,
    )
parse_id3v23-tag_bytes_example =
    parse_id3v23-tag_bytes false two_frames 0 [] 0 refl (omega arith) (omega arith) (inl refl)

parse_id3v24-assertion_failed_example :
    parse_id3v24 (tag_bytes 0x04 byte_128 false two_frames 4 []) 0 ≡ fault assertion_failed
parse_id3v24-assertion_failed_example =
    parse_id3v24-assertion_failed false two_frames 4 [] 0 refl (omega arith) (omega arith)
      (omega arith) (omega arith)

parse_id3v2-IsInside_example : Within IsCrash (IsInside small_tag) (parse_id3v2 small_tag)
parse_id3v2-IsInside_example = parse_id3v2-IsInside small_tag

small_tag-size : extract_uint32_7bit small_tag 6 ≡ ok 30
unfolding extract_uint32_7bit read
small_tag-size = refl

parse_at-IsInside_example :
    (r : List Call × ℕ) × (parse_at small_tag 0 ≡ ok r) × IsInside small_tag r
parse_at-IsInside_example =
    parse_at-IsInside small_tag 0 (λ tsize e. ground (arith, e, small_tag-size))

un_unsync-stuffed_example : un_unsync (9 ∷ 0xff ∷ 0 ∷ 7 ∷ 8 ∷ []) 1 3 ≡ ok (0xff ∷ 7 ∷ [])
un_unsync-stuffed_example = un_unsync-stuffed (9 ∷ []) (0xff ∷ 7 ∷ []) (8 ∷ [])

id3v24_get_frame-scan_frames_example : id3v24_get_frame 0x54495432 ≡ ok id3v24_tit2
unfolding id3v24_frames
id3v24_get_frame-scan_frames_example = id3v24_get_frame-scan_frames 0x54495432

id3v2_get_frame-scan_frames_example : id3v2_get_frame 0x545432 ≡ ok id3v2_tt2
unfolding id3v2_frames
id3v2_get_frame-scan_frames_example = id3v2_get_frame-scan_frames 0x545432
