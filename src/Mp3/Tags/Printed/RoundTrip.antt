-- ===== src/Mp3/Tags/Printed/RoundTrip.antt =====
-- parse_id3v24 and parse_id3v23 on the tags that a writer writes.
use tracker_miners.Base.{
  ℕ, zero, suc, ◌+◌, ◌-◌, ◌≤◌, ◌<◌, ◌≡◌, refl, sym, ap, subst, ◌∙◌, Bool, true, false, ◌⊎◌, inl,
  inr, some, List, [], ◌∷◌, ◌++◌, nat_eq_refl, ltb, arith, length, if◌then◌else◌,
}
use tracker_miners.Mp3.{
  Outcome, ok, fault, assertion_failed, ◌>>=◌, bit, read, extract_uint32, extract_uint32_7bit,
}
use tracker_miners.Mp3.Reads.{bind_ok, if_false}
use tracker_miners.Mp3.Tables.{Id3v24frame}
use tracker_miners.Mp3.Tags.{
  Call, get_id3v24_tags, get_id3v23_tags, Turn, break, frame_turn, frame_loop, is_tag, first_frame,
  parse_tag, parse_id3v24, parse_id3v23,
}
use tracker_miners.Mp3.Tags.Printed.{
  byte_256, byte_128, number_bytes, frames_bytes, frames_size, zeros, length-zeros, tag_bytes,
  frame_calls, is_writable,
}
use tracker_miners.Mp3.Tags.Printed.Turns.{frame_turn-padding, frame_turn-assertion}
use tracker_miners.Mp3.Tags.Printed.Written.{
  IsWritten, extract_uint32-IsWritten, extract_uint32_7bit-IsWritten,
}
use tracker_miners.Mp3.Tags.Printed.Loop.{
  prefixed, prefixed-ok, prefixed-fault, frames_bytes-append, length-frames_bytes, EndsIn,
  EndsIn-end, EndsIn-break, EndsIn-fault, EndsIn-frames,
}

bit-unsync : (unsync : Bool) → bit 0x80 (if unsync then 0x80 else 0) ≡ unsync
bit-unsync true = refl
bit-unsync false = refl

bit-experimental : (unsync : Bool) → bit 0x20 (if unsync then 0x80 else 0) ≡ false
bit-experimental true = refl
bit-experimental false = refl

bit-ext_header : (unsync : Bool) → bit 0x40 (if unsync then 0x80 else 0) ≡ false
bit-ext_header true = refl
bit-ext_header false = refl

module _ (version : ℕ) (tags : Id3v24frame → List ℕ → Call) (footers : Bool)
    (size_at : List ℕ → ℕ → Outcome ℕ) (byte : ℕ → ℕ → ℕ) (limit : ℕ)
    (sizes : (buffer : List ℕ) (p n : ℕ)
      → IsWritten byte buffer p n
      → n < limit
      → size_at buffer p ≡ ok n)
    (unsync : Bool) (fs : List (Id3v24frame × List ℕ)) (padding : ℕ) (rest : List ℕ) where
  abbrev tag : List ℕ
  tag = tag_bytes version byte unsync fs padding rest

  abbrev tag_size : ℕ
  tag_size = frames_size unsync fs + padding

  -- the bytes in front of the padding
  abbrev front : List ℕ
  front =
      0x49
      ∷ 0x44
      ∷ 0x33
      ∷ version
      ∷ 0
      ∷ (if unsync then 0x80 else 0)
      ∷ number_bytes byte_128 tag_size (frames_bytes byte unsync fs [])

  front-padding : tag ≡ front ++ zeros padding rest
  front-padding =
      ap
        (λ x.
          0x49
          ∷ 0x44
          ∷ 0x33
          ∷ version
          ∷ 0
          ∷ (if unsync then 0x80 else 0)
          ∷ number_bytes byte_128 tag_size x)
        (frames_bytes-append byte unsync fs (zeros padding rest))

  length-front : length front ≡ 10 + frames_size unsync fs
  length-front = omega (arith, length-frames_bytes byte unsync fs [])

  length-tag : length tag ≡ 10 + tag_size + length rest
  length-tag =
      omega
        (arith, length-frames_bytes byte unsync fs (zeros padding rest), length-zeros padding rest)

  abbrev tag_turn : ℕ → Outcome Turn
  tag_turn pos = frame_turn tags footers size_at unsync tag tag_size pos

  tag_turn-padding :
      0 < padding → 10 ≤ padding + length rest → tag_turn (10 + frames_size unsync fs) ≡ ok break
  tag_turn-padding h k =
      ap (λ x. frame_turn tags footers size_at unsync x tag_size (10 + frames_size unsync fs))
        front-padding
      ∙ (ap (frame_turn tags footers size_at unsync (front ++ zeros padding rest) tag_size)
            (sym length-front)
          ∙ frame_turn-padding tags footers size_at byte limit sizes unsync front rest padding
              tag_size (omega (arith, length-front)) h k)

  abbrev Ends : Outcome (List Call) → Type 0
  Ends o =
      EndsIn tags footers size_at byte limit sizes unsync tag tag_size o
        (10 + frames_size unsync fs)

  Ends-ok_none : padding ≡ 0 → Ends (ok [])
  Ends-ok_none e =
      subst (EndsIn tags footers size_at byte limit sizes unsync tag tag_size (ok []))
        (omega (arith, e)) (EndsIn-end tags footers size_at byte limit sizes unsync tag tag_size)

  Ends-ok : (padding ≡ 0) ⊎ (10 ≤ padding + length rest) → Ends (ok [])
  Ends-ok (inl e) = Ends-ok_none e
  Ends-ok (inr h) = ends_padded padding refl
    where
      ends_padded : (n : ℕ) → padding ≡ n → Ends (ok [])
      ends_padded zero e = Ends-ok_none e
      ends_padded (suc n) e =
          EndsIn-break tags footers size_at byte limit sizes unsync tag tag_size
            (10 + frames_size unsync fs) (omega (arith, e)) (tag_turn-padding (omega (arith, e)) h)

  Ends-fault : 0 < padding → padding + length rest < 10 → Ends (fault assertion_failed)
  Ends-fault h k =
      EndsIn-fault tags footers size_at byte limit sizes unsync tag tag_size
        (10 + frames_size unsync fs) assertion_failed (omega arith)
        (frame_turn-assertion tags footers size_at byte limit sizes unsync tag tag_size
          (10 + frames_size unsync fs) (omega (arith, length-tag)))

  is_tag-tag : 6 ≤ tag_size + length rest → is_tag 16 version tag ≡ ok true
  unfolding is_tag read
  is_tag-tag h =
      if_false (ltb (length tag) 16) _ _ _ (ground (arith, length-tag))
        (ap ok (ground (arith, nat_eq_refl version)))

  read-tag : read tag 5 ≡ ok (if unsync then 0x80 else 0)
  unfolding read
  read-tag = refl

  tag-IsWritten : IsWritten byte_128 tag 6 tag_size
  unfolding read
  tag-IsWritten = (refl, refl, refl, refl)

  parse_tag-tag :
      (offset_delta : ℕ) (o : Outcome (List Call))
      → is_writable fs ≡ true
      → frames_size unsync fs < limit
      → tag_size < 268435456
      → 6 ≤ tag_size + length rest
      → Ends o
      → parse_tag version tags footers size_at tag offset_delta
        ≡ (prefixed (frame_calls tags fs) o >>= λ calls. ok (calls, tag_size + 10))
  unfolding parse_tag
  parse_tag-tag offset_delta o w l t m i = bind_ok (is_tag 16 version tag) _ true _ (is_tag-tag m) (
      bind_ok (read tag 5) _ (if unsync then 0x80 else 0) _ read-tag (
        if_false (bit 0x20 (if unsync then 0x80 else 0)) _ _ _ (bit-experimental unsync) (
          bind_ok (extract_uint32_7bit tag 6) _ tag_size _
            (extract_uint32_7bit-IsWritten tag 6 tag_size tag-IsWritten t)
            (if_false (ltb (length tag - 10) tag_size) _ _ _ (ground (arith, length-tag)) (
              bind_ok (first_frame (bit 0x40 (if unsync then 0x80 else 0)) size_at tag tag_size) _
                (some 10) _ (rw (bit-ext_header unsync) refl)
                (ap
                    (λ u.
                      frame_loop (frame_turn tags footers size_at u tag tag_size) (tag_size + 10)
                        (tag_size + 10) 10
                      >>= λ calls. ok (calls, tag_size + 10))
                    (bit-unsync unsync)
                  ∙ ap (λ r. r >>= λ calls. ok (calls, tag_size + 10))
                      (EndsIn-frames tags footers size_at byte limit sizes unsync tag tag_size fs
                        (0x49
                          ∷ 0x44
                          ∷ 0x33
                          ∷ version
                          ∷ 0
                          ∷ (if unsync then 0x80 else 0)
                          ∷ number_bytes byte_128 tag_size [])
                        (zeros padding rest) 10 o refl (omega arith) w l (omega arith) i
                        (tag_size + 10) (omega arith))))))))

  -- a tag that is followed by enough, or that has no padding
  parse_tag-written :
      (offset_delta : ℕ)
      → is_writable fs ≡ true
      → frames_size unsync fs < limit
      → tag_size < 268435456
      → 6 ≤ tag_size + length rest
      → (padding ≡ 0) ⊎ (10 ≤ padding + length rest)
      → parse_tag version tags footers size_at tag offset_delta
        ≡ ok (frame_calls tags fs, tag_size + 10)
  parse_tag-written offset_delta w l t m p =
      parse_tag-tag offset_delta (ok []) w l t m (Ends-ok p)
      ∙ ap (λ r. r >>= λ calls. ok (calls, tag_size + 10)) (prefixed-ok (frame_calls tags fs))

  parse_tag-aborts :
      (offset_delta : ℕ)
      → is_writable fs ≡ true
      → frames_size unsync fs < limit
      → tag_size < 268435456
      → 6 ≤ tag_size + length rest
      → 0 < padding
      → padding + length rest < 10
      → parse_tag version tags footers size_at tag offset_delta ≡ fault assertion_failed
  parse_tag-aborts offset_delta w l t m p q =
      parse_tag-tag offset_delta (fault assertion_failed) w l t m (Ends-fault p q)
      ∙ ap (λ r. r >>= λ calls. ok (calls, tag_size + 10))
          (prefixed-fault (frame_calls tags fs) assertion_failed)

-- The frames that a tag of version 4 is written with come back from parse_id3v24, in their order and with
-- their contents, whether the tag is unsynchronised or not: each frame is one of the table's and has a
-- content, the tag's size fits into its 28 bits, and the tag has no padding or at least 10 bytes,
-- padding or others, behind its last frame.
pub parse_id3v24-tag_bytes :
    (unsync : Bool) (frames : List (Id3v24frame × List ℕ)) (padding : ℕ) (rest : List ℕ)
    (offset_delta : ℕ)
    → is_writable frames ≡ true
    → frames_size unsync frames + padding < 268435456
    → 6 ≤ frames_size unsync frames + padding + length rest
    → (padding ≡ 0) ⊎ (10 ≤ padding + length rest)
    → parse_id3v24 (tag_bytes 0x04 byte_128 unsync frames padding rest) offset_delta
      ≡ ok (frame_calls get_id3v24_tags frames, frames_size unsync frames + padding + 10)
parse_id3v24-tag_bytes unsync frames padding rest offset_delta w t m p =
    parse_tag-written 0x04 get_id3v24_tags true extract_uint32_7bit byte_128 268435456
      extract_uint32_7bit-IsWritten unsync frames padding rest offset_delta w (omega arith) t m p

-- The frames that a tag of version 3 is written with come back from parse_id3v23, in their order and with
-- their contents, whether the tag is unsynchronised or not: each frame is one of the table's and has a
-- content, the tag's size fits into its 28 bits, and the tag has no padding or at least 10 bytes,
-- padding or others, behind its last frame.
pub parse_id3v23-tag_bytes :
    (unsync : Bool) (frames : List (Id3v24frame × List ℕ)) (padding : ℕ) (rest : List ℕ)
    (offset_delta : ℕ)
    → is_writable frames ≡ true
    → frames_size unsync frames + padding < 268435456
    → 6 ≤ frames_size unsync frames + padding + length rest
    → (padding ≡ 0) ⊎ (10 ≤ padding + length rest)
    → parse_id3v23 (tag_bytes 0x03 byte_256 unsync frames padding rest) offset_delta
      ≡ ok (frame_calls get_id3v23_tags frames, frames_size unsync frames + padding + 10)
parse_id3v23-tag_bytes unsync frames padding rest offset_delta w t m p =
    parse_tag-written 0x03 get_id3v23_tags false extract_uint32 byte_256 4294967296
      extract_uint32-IsWritten unsync frames padding rest offset_delta w (omega arith) t m p

-- A tag of version 4 of known frames with contents, whose last frame has padding behind it but fewer than
-- 10 bytes up to the end of the buffer, makes the assertion at the head of the loop of parse_id3v24 fail.
pub parse_id3v24-assertion_failed :
    (unsync : Bool) (frames : List (Id3v24frame × List ℕ)) (padding : ℕ) (rest : List ℕ)
    (offset_delta : ℕ)
    → is_writable frames ≡ true
    → frames_size unsync frames + padding < 268435456
    → 6 ≤ frames_size unsync frames + padding + length rest
    → 0 < padding
    → padding + length rest < 10
    → parse_id3v24 (tag_bytes 0x04 byte_128 unsync frames padding rest) offset_delta
      ≡ fault assertion_failed
parse_id3v24-assertion_failed unsync frames padding rest offset_delta w t m p q =
    parse_tag-aborts 0x04 get_id3v24_tags true extract_uint32_7bit byte_128 268435456
      extract_uint32_7bit-IsWritten unsync frames padding rest offset_delta w (omega arith) t m p q
