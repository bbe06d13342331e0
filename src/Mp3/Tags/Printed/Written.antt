-- ===== src/Mp3/Tags/Printed/Written.antt =====
-- Numbers, contents and frames as they stand in a buffer, and what the reads of them give.
use tracker_miners.Base.{
  ℕ, zero, suc, ◌+◌, ◌*◌, ◌%◌, ◌≤◌, ◌<◌, ◌≡◌, refl, sym, ap, Bool, true, false, List, [], ◌∷◌, ◌++◌,
  append_assoc, nat_eq, ltb, arith, length, length-append,
}
use tracker_miners.Mp3.{ok, read, extract_uint32, extract_uint32_7bit, extract_uint32_3byte}
use tracker_miners.Mp3.Reads.{read-behind, bind_ok, if_false}
use tracker_miners.Mp3.Unsync.{un_unsync-stuffed}
use tracker_miners.Mp3.Tables.{Id3v24frame, id3v24_unknown}
use tracker_miners.Mp3.Tags.{
  Call, hand, read_bytes, frame_content, hand_frame, known_frame, sort_frame, is_footer,
}
use tracker_miners.Mp3.Tags.Printed.{is_known, is_name, byte_256, byte_128, written}

-- the four bytes of a number stand at `p`
abbrev pub IsWritten : (ℕ → ℕ → ℕ) → List ℕ → ℕ → ℕ → Type 0
IsWritten byte buffer p n =
    (read buffer p ≡ ok (byte 3 n))
    × (read buffer (p + 1) ≡ ok (byte 2 n))
    × (read buffer (p + 2) ≡ ok (byte 1 n))
    × (read buffer (p + 3) ≡ ok (byte 0 n))

pub digits_256 :
    (n : ℕ)
    → n < 4294967296
    → byte_256 3 n * 16777216 + byte_256 2 n * 65536 + byte_256 1 n * 256 + byte_256 0 n ≡ n
digits_256 n h = omega arith

pub digits_128 :
    (n : ℕ)
    → n < 268435456
    → byte_128 3 n % 128 * 2097152
        + byte_128 2 n % 128 * 16384
        + byte_128 1 n % 128 * 128
        + byte_128 0 n % 128
      ≡ n
digits_128 n h = omega arith

pub extract_uint32-IsWritten :
    (buffer : List ℕ) (p n : ℕ)
    → IsWritten byte_256 buffer p n
    → n < 4294967296
    → extract_uint32 buffer p ≡ ok n
unfolding extract_uint32
extract_uint32-IsWritten buffer p n (a, b, c, d) h =
    bind_ok _ _ _ _ a
      (bind_ok _ _ _ _ b (bind_ok _ _ _ _ c (bind_ok _ _ _ _ d (ap ok (digits_256 n h)))))

pub extract_uint32_7bit-IsWritten :
    (buffer : List ℕ) (p n : ℕ)
    → IsWritten byte_128 buffer p n
    → n < 268435456
    → extract_uint32_7bit buffer p ≡ ok n
unfolding extract_uint32_7bit
extract_uint32_7bit-IsWritten buffer p n (a, b, c, d) h =
    bind_ok _ _ _ _ a
      (bind_ok _ _ _ _ b (bind_ok _ _ _ _ c (bind_ok _ _ _ _ d (ap ok (digits_128 n h)))))

pub read_bytes-behind :
    (pre xs rest : List ℕ) → read_bytes (length xs) (pre ++ (xs ++ rest)) (length pre) ≡ ok xs
unfolding read_bytes read
read_bytes-behind pre [] rest = refl
read_bytes-behind pre (x ∷ xs) rest =
    bind_ok _ _ x _ (read-behind pre (x ∷ (xs ++ rest)) (length pre) 0 (omega arith))
      (bind_ok _ _ xs _ (go (read_bytes-behind (pre ++ x ∷ []) xs rest)) refl)
  where
    go :
        read_bytes (length xs) ((pre ++ x ∷ []) ++ (xs ++ rest)) (length (pre ++ x ∷ [])) ≡ ok xs
        → read_bytes (length xs) (pre ++ (x ∷ (xs ++ rest))) (length pre + 1) ≡ ok xs
    go h = rw (sym (append_assoc pre (x ∷ []) (xs ++ rest)), sym (length-append pre (x ∷ []))) h

pub frame_content-written :
    (unsync : Bool) (pre content rest : List ℕ)
    → frame_content unsync
        (pre ++ (written unsync content ++ rest))
        (length pre)
        (length (written unsync content))
      ≡ ok content
unfolding frame_content
frame_content-written true pre content rest = un_unsync-stuffed pre content rest
frame_content-written false pre content rest = read_bytes-behind pre content rest

pub known_frame-written :
    (tags : List ℕ → Call) (unsync : Bool) (tsize csize pos : ℕ) (buffer content : List ℕ)
    → frame_content unsync buffer pos csize ≡ ok content
    → 0 < csize
    → pos + csize ≤ tsize + 10
    → known_frame tags unsync buffer tsize pos csize 0 ≡ ok (hand (tags content) (pos + csize))
unfolding known_frame hand_frame
known_frame-written tags unsync tsize csize pos buffer content e n h =
    if_false (ltb (tsize + 10) (pos + csize)) _ _ _ (ground arith) (
      if_false (nat_eq csize 0) _ _ _ (ground arith)
        (bind_ok (frame_content unsync buffer pos csize) _ content _ e refl))

pub sort_frame-known :
    (tags : Id3v24frame → List ℕ → Call) (unsync : Bool) (tsize csize pos flags : ℕ)
    (buffer : List ℕ) (frame : Id3v24frame)
    → is_known frame ≡ true
    → sort_frame tags unsync buffer tsize pos csize flags frame
      ≡ known_frame (tags frame) unsync buffer tsize pos csize flags
sort_frame-known tags unsync tsize csize pos flags buffer id3v24_unknown h =
    absurd (ground (arith, h))
sort_frame-known tags unsync tsize csize pos flags buffer frame h = refl

pub footer-name :
    (name : ℕ)
    → is_name name ≡ true
    → nat_eq (byte_256 3 name * 65536 + byte_256 2 name * 256 + byte_256 1 name) 0x334449 ≡ false
footer-name name h = ground arith

pub is_footer-none :
    (footers : Bool) (buffer : List ℕ) (p name : ℕ)
    → IsWritten byte_256 buffer p name
    → is_name name ≡ true
    → is_footer footers buffer p ≡ ok false
unfolding extract_uint32_3byte
is_footer-none false buffer p name w h = refl
is_footer-none true buffer p name (a, b, c, d) h =
    bind_ok (extract_uint32_3byte buffer p) _
      (byte_256 3 name * 65536 + byte_256 2 name * 256 + byte_256 1 name) _
      (bind_ok _ _ _ _ a (bind_ok _ _ _ _ b (bind_ok _ _ _ _ c refl))) (ap ok (footer-name name h))

pub read_zeros :
    (pre more : List ℕ) (k i : ℕ)
    → k < 3
    → i ≡ length pre + k
    → read (pre ++ 0 ∷ 0 ∷ 0 ∷ more) i ≡ ok 0
unfolding read
read_zeros pre more zero i l h = read-behind pre (0 ∷ 0 ∷ 0 ∷ more) i 0 h
read_zeros pre more (suc zero) i l h = read-behind pre (0 ∷ 0 ∷ 0 ∷ more) i 1 h
read_zeros pre more (suc (suc zero)) i l h = read-behind pre (0 ∷ 0 ∷ 0 ∷ more) i 2 h
read_zeros pre more (suc (suc (suc k))) i l h = absurd (omega arith)

pub is_footer-zeros :
    (footers : Bool) (pre more : List ℕ)
    → is_footer footers (pre ++ 0 ∷ 0 ∷ 0 ∷ more) (length pre) ≡ ok false
unfolding extract_uint32_3byte
is_footer-zeros false pre more = refl
is_footer-zeros true pre more =
    bind_ok (extract_uint32_3byte (pre ++ 0 ∷ 0 ∷ 0 ∷ more) (length pre)) _ 0 _
      (bind_ok _ _ 0 _ (read_zeros pre more 0 (length pre) (omega arith) (omega arith)) (
        bind_ok _ _ 0 _ (read_zeros pre more 1 (length pre + 1) (omega arith) (omega arith)) (
          bind_ok _ _ 0 _ (read_zeros pre more 2 (length pre + 2) (omega arith) (omega arith))
            refl)))
      refl
