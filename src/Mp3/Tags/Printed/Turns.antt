-- ===== src/Mp3/Tags/Printed/Turns.antt =====
-- The turns of the loop at a frame as a writer writes it, and at what is behind the last one.
use tracker_miners.Base.{
  order, ℕ, suc, ◌+◌, ◌-◌, ◌≤◌, ◌<◌, ◌≡◌, refl, sym, ap, ◌∙◌, Bool, true, false, ◌||◌, inl, inr,
  List, [], ◌∷◌, ◌++◌, append_assoc, nat_eq, ltb, arith, length, length-append,
}
use tracker_miners.Mp3.{Outcome, ok, fault, assertion_failed, read, extract_uint32, extract_uint16}
use tracker_miners.Mp3.Reads.{read-behind, bind_ok, if_true, if_false}
use tracker_miners.Mp3.Tables.{Id3v24frame, id3v24_get_frame}
use tracker_miners.Mp3.Tables.Lookup.{id3v24_get_frame-scan_frames}
use tracker_miners.Mp3.Tags.{Call, break, hand, frame_content, is_footer, frame_turn}
use tracker_miners.Mp3.Tags.Printed.{
  frame_name, is_known, is_name, frame_name-is_name, scan_frames-frame_name, byte_256, number_bytes,
  written, frame_bytes, zeros, length-zeros,
}
use tracker_miners.Mp3.Tags.Printed.Written.{
  IsWritten, extract_uint32-IsWritten, frame_content-written, known_frame-written, sort_frame-known,
  is_footer-none, read_zeros, is_footer-zeros,
}

-- where the parts of a frame stand
module _ (byte : ℕ → ℕ → ℕ) (unsync : Bool) (frame : Id3v24frame) (content pre rest : List ℕ) where
  abbrev buffer_at : List ℕ
  buffer_at = pre ++ frame_bytes byte unsync (frame, content) rest

  length-buffer_at :
      length buffer_at ≡ length pre + 10 + length (written unsync content) + length rest
  length-buffer_at = omega (
    arith,
    length-append pre (frame_bytes byte unsync (frame, content) rest),
    length-append (written unsync content) rest,
  )

  read-buffer_at :
      (i k : ℕ)
      → i ≡ length pre + k
      → read buffer_at i ≡ read (frame_bytes byte unsync (frame, content) rest) k
  read-buffer_at i k h = read-behind pre (frame_bytes byte unsync (frame, content) rest) i k h

  name-IsWritten : IsWritten byte_256 buffer_at (length pre) (frame_name frame)
  unfolding read
  name-IsWritten = (
    read-buffer_at _ 0 (omega arith),
    read-buffer_at _ 1 (omega arith),
    read-buffer_at _ 2 (omega arith),
    read-buffer_at _ 3 (omega arith),
  )

  size-IsWritten : IsWritten byte buffer_at (length pre + 4) (length (written unsync content))
  unfolding read
  size-IsWritten = (
    read-buffer_at _ 4 (omega arith),
    read-buffer_at _ 5 (omega arith),
    read-buffer_at _ 6 (omega arith),
    read-buffer_at _ 7 (omega arith),
  )

  flags-written : extract_uint16 buffer_at (length pre + 8) ≡ ok 0
  unfolding extract_uint16 read
  flags-written =
      bind_ok (read buffer_at (length pre + 8)) _ 0 _ (read-buffer_at _ 8 (omega arith)) (
        bind_ok (read buffer_at (length pre + 8 + 1)) _ 0 _ (read-buffer_at _ 9 (omega arith)) refl)

  content-written :
      frame_content unsync buffer_at (length pre + 10) (length (written unsync content))
      ≡ ok content
  content-written =
      let header =
        number_bytes byte_256 (frame_name frame)
          (number_bytes byte (length (written unsync content)) (0 ∷ 0 ∷ [])) in
      rw
        (
          sym (length-append pre header),
          sym (append_assoc pre header (written unsync content ++ rest)),
        )
        (frame_content-written unsync (pre ++ header) content rest)

first_byte : (name : ℕ) → is_name name ≡ true → (nat_eq (byte_256 3 name) 0 || false) ≡ false
first_byte name h = ground arith

module _ (tags : Id3v24frame → List ℕ → Call) (footers : Bool) (size_at : List ℕ → ℕ → Outcome ℕ)
    (byte : ℕ → ℕ → ℕ) (limit : ℕ)
    (sizes : (buffer : List ℕ) (p n : ℕ)
      → IsWritten byte buffer p n
      → n < limit
      → size_at buffer p ≡ ok n) where
  is_footer-name :
      (buffer : List ℕ) (p name : ℕ)
      → IsWritten byte_256 buffer p name
      → is_name name ≡ true
      → is_footer footers buffer p ≡ ok false
  is_footer-name buffer p name w h = is_footer-none footers buffer p name w h

  -- A turn at a frame that fits into the tag and is known hands over its content.
  pub frame_turn-written :
      (unsync : Bool) (frame : Id3v24frame) (content pre rest : List ℕ) (tsize : ℕ)
      → is_known frame ≡ true
      → 0 < length (written unsync content)
      → length (written unsync content) < limit
      → length pre + 10 + length (written unsync content) ≤ tsize + 10
      → frame_turn tags footers size_at unsync
          (pre ++ frame_bytes byte unsync (frame, content) rest)
          tsize
          (length pre)
        ≡ ok (hand (tags frame content) (length pre + 10 + length (written unsync content)))
  unfolding frame_turn
  frame_turn-written unsync frame content pre rest tsize k n l h =
      let name = frame_name frame in
      let w = written unsync content in
      let buffer = buffer_at byte unsync frame content pre rest in
      let known = frame_name-is_name frame k in
      let long = length-buffer_at byte unsync frame content pre rest in
      if_false (ltb (length buffer - 10) (length pre)) _ _ _ (ground (arith, long)) (
        if_false (ltb (tsize + 10) (length pre + 10)) _ _ _ (ground arith) (
          bind_ok (read buffer (length pre)) _ (byte_256 3 name) _
            (name-IsWritten byte unsync frame content pre rest).0
            (bind_ok (is_footer footers buffer (length pre)) _ false _
              (is_footer-name buffer (length pre) name
                (name-IsWritten byte unsync frame content pre rest) known)
              (if_false (nat_eq (byte_256 3 name) 0 || false) _ _ _ (first_byte name known) (
                bind_ok (extract_uint32 buffer (length pre)) _ name _
                  (extract_uint32-IsWritten buffer (length pre) name
                    (name-IsWritten byte unsync frame content pre rest) (ground (arith, known)))
                  (bind_ok (id3v24_get_frame name) _ frame _
                    (id3v24_get_frame-scan_frames name ∙ ap ok (scan_frames-frame_name frame))
                    (bind_ok (size_at buffer (length pre + 4)) _ (length w) _
                      (sizes buffer (length pre + 4) (length w)
                        (size-IsWritten byte unsync frame content pre rest) l)
                      (if_false (ltb (length buffer - 10 - length pre) (length w)) _ _ _
                        (ground (arith, long))
                        (bind_ok (extract_uint16 buffer (length pre + 8)) _ 0 _
                          (flags-written byte unsync frame content pre rest)
                          (sort_frame-known tags unsync tsize (length w) (length pre + 10) 0 buffer
                              frame k
                            ∙ known_frame-written (tags frame) unsync tsize (length w)
                                (length pre + 10) buffer content
                                (content-written byte unsync frame content pre rest) n h))))))))))

  -- the turns behind the last frame: in padding that is as long as a frame's header, or shorter
  frame_turn-zeros :
      (unsync : Bool) (pre more : List ℕ) (tsize : ℕ)
      → length pre + 10 ≤ tsize + 10
      → length pre + 10 ≤ length (pre ++ 0 ∷ 0 ∷ 0 ∷ more)
      → frame_turn tags footers size_at unsync (pre ++ 0 ∷ 0 ∷ 0 ∷ more) tsize (length pre)
        ≡ ok break
  unfolding frame_turn
  frame_turn-zeros unsync pre more tsize h k =
      let buffer = pre ++ 0 ∷ 0 ∷ 0 ∷ more in
      if_false (ltb (length buffer - 10) (length pre)) _ _ _ (ground arith) (
        if_false (ltb (tsize + 10) (length pre + 10)) _ _ _ (ground arith) (
          bind_ok (read buffer (length pre)) _ 0 _
            (read_zeros pre more 0 (length pre) (omega arith) (omega arith))
            (bind_ok (is_footer footers buffer (length pre)) _ false _
              (is_footer-zeros footers pre more) refl)))

  pub frame_turn-short :
      (unsync : Bool) (buffer : List ℕ) (tsize pos : ℕ)
      → pos + 10 ≤ length buffer
      → tsize < pos
      → frame_turn tags footers size_at unsync buffer tsize pos ≡ ok break
  unfolding frame_turn
  frame_turn-short unsync buffer tsize pos h k =
      if_false (ltb (length buffer - 10) pos) _ _ _ (ground arith)
        (if_true (ltb (tsize + 10) (pos + 10)) _ _ _ (ground arith) refl)

  pub frame_turn-assertion :
      (unsync : Bool) (buffer : List ℕ) (tsize pos : ℕ)
      → length buffer - 10 < pos
      → frame_turn tags footers size_at unsync buffer tsize pos ≡ fault assertion_failed
  unfolding frame_turn
  frame_turn-assertion unsync buffer tsize pos h =
      if_true (ltb (length buffer - 10) pos) _ _ _ (ground arith) refl

  frame_turn-zeros_long :
      (unsync : Bool) (pre rest : List ℕ) (n tsize : ℕ)
      → tsize + 10 ≡ length pre + n
      → 10 ≤ n
      → frame_turn tags footers size_at unsync (pre ++ zeros n rest) tsize (length pre) ≡ ok break
  frame_turn-zeros_long unsync pre rest (suc (suc (suc n))) tsize h l =
      frame_turn-zeros unsync pre (zeros n rest) tsize (omega arith)
        (omega (arith, length-append pre (0 ∷ 0 ∷ 0 ∷ zeros n rest), length-zeros n rest))
  frame_turn-zeros_long unsync pre rest n tsize h l = absurd (omega arith)

  pub frame_turn-padding :
      (unsync : Bool) (pre rest : List ℕ) (padding tsize : ℕ)
      → tsize + 10 ≡ length pre + padding
      → 0 < padding
      → 10 ≤ padding + length rest
      → frame_turn tags footers size_at unsync (pre ++ zeros padding rest) tsize (length pre)
        ≡ ok break
  frame_turn-padding unsync pre rest padding tsize h k l = elim (order padding 10) [
    | inl short ↦
        frame_turn-short unsync (pre ++ zeros padding rest) tsize (length pre)
          (omega (arith, length-append pre (zeros padding rest), length-zeros padding rest))
          (omega arith)
    | inr long ↦ frame_turn-zeros_long unsync pre rest padding tsize h long
  ]
