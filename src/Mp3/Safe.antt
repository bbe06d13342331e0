-- ===== src/Mp3/Safe.antt =====
-- parse_id3v2 on any buffer, and the three parsers on a tag with enough bytes behind it.
use tracker_miners.Base.{
  ℕ, zero, suc, ◌+◌, ◌≤◌, ◌<◌, ◌≡◌, refl, Option, none, some, List, [], ◌∷◌, nat_eq, arith, length,
  get_elem?,
}
use tracker_miners.Mp3.{
  Fault, out_of_bounds, assertion_failed, stuck, Outcome, ok, fault, of_option, read,
  extract_uint32_7bit,
}
use tracker_miners.Mp3.Reads.{Within, Any, Within-bind, Within-elim, Reads}
use tracker_miners.Mp3.Tags.{Call, drop, parse_at, parse_id3v2_loop, parse_id3v2}
use tracker_miners.Mp3.Tags.Parsers.{Room, IsInside, parse_at-Within}

-- every fault of the code, but not the end of the fuel
abbrev pub IsCrash : Fault → Type 0
IsCrash out_of_bounds = Unit
IsCrash assertion_failed = Unit
IsCrash stuck = ⊥

of_option-IsCrash : (o : Option ℕ) → Within IsCrash Any (of_option o)
of_option-IsCrash none = tt
of_option-IsCrash (some b) = tt

read-IsCrash : (buffer : List ℕ) (bound : ℕ) → Reads IsCrash buffer bound
unfolding read
read-IsCrash buffer bound i h = of_option-IsCrash (get_elem? buffer i)

Room-IsCrash : (spare : ℕ) (buffer : List ℕ) → Room IsCrash spare buffer
Room-IsCrash spare buffer = record {
  header_reads = λ l. read-IsCrash buffer 16;
  tag_reads = λ tsize e l. read-IsCrash buffer (tsize + 11);
  asserts = λ tsize e l. tt;
}

length-drop : (n : ℕ) (xs : List ℕ) → n ≤ length xs → n + length (drop n xs) ≡ length xs
length-drop zero xs h = omega arith
length-drop (suc n) [] h = absurd (omega arith)
length-drop (suc n) (x ∷ xs) h = omega (arith, length-drop n xs (omega arith))

parse_id3v2_loop-Within :
    (fuel : ℕ) (buffer : List ℕ) (offset : ℕ)
    → offset ≤ length buffer
    → length buffer < offset + fuel
    → Within IsCrash (IsInside buffer) (parse_id3v2_loop fuel buffer offset)
unfolding parse_id3v2_loop
parse_id3v2_loop-Within zero buffer offset h k = absurd (omega arith)
parse_id3v2_loop-Within (suc fuel) buffer offset h k =
    Within-bind IsCrash (IsInside (drop offset buffer)) (IsInside buffer) (parse_at buffer offset) _
      (parse_at-Within IsCrash buffer offset (Room-IsCrash 9 _) (Room-IsCrash 5 _))
      λ at d.
        Within-elim IsCrash (IsInside buffer) (nat_eq at.1 0) _ _ (λ e. h)
          λ e.
            Within-bind IsCrash (IsInside buffer) (IsInside buffer)
              (parse_id3v2_loop fuel buffer (offset + at.1)) _
              (parse_id3v2_loop-Within fuel buffer (offset + at.1)
                (omega (arith, length-drop offset buffer h)) (ground arith))
              λ later l. l

-- On every buffer, whatever its bytes are, the loops of parse_id3v2 and of the parsers that it calls come
-- to an end within the fuel, unless the code crashes; and the offset that it returns, where the audio
-- starts, is not past the buffer's end.
pub parse_id3v2-IsInside : (buffer : List ℕ) → Within IsCrash (IsInside buffer) (parse_id3v2 buffer)
unfolding parse_id3v2
parse_id3v2-IsInside buffer =
    parse_id3v2_loop-Within (suc (length buffer)) buffer 0 (omega arith) (omega arith)

abbrev NoFault : Fault → Type 0
NoFault e = ⊥

read-NoFault : (buffer : List ℕ) (i : ℕ) → i < length buffer → Within NoFault Any (read buffer i)
unfolding read
read-NoFault [] i h = absurd (omega arith)
read-NoFault (b ∷ buffer) zero h = tt
read-NoFault (b ∷ buffer) (suc i) h = read-NoFault buffer i (omega arith)

Room-NoFault :
    (spare : ℕ) (buffer : List ℕ)
    → 1 ≤ spare
    → ((tsize : ℕ) → extract_uint32_7bit buffer 6 ≡ ok tsize → tsize + 10 + spare ≤ length buffer)
    → Room NoFault spare buffer
Room-NoFault spare buffer s h = record {
  header_reads = λ l i m. read-NoFault buffer i (omega arith);
  tag_reads = λ tsize e l i m. read-NoFault buffer i (omega (arith, h tsize e));
  asserts = λ tsize e l. omega (arith, h tsize e);
}

Within-NoFault :
    {A : Type 0} (P : A → Type 0) (o : Outcome A) → Within NoFault P o → (a : A) × (o ≡ ok a) × P a
Within-NoFault P (ok a) h = (a, refl, h)
Within-NoFault P (fault e) h = absurd h

-- Where 9 bytes or more stand behind the tag whose size is in the header at `offset`, whatever the bytes
-- are, the three parsers read nothing outside of the buffer, fail no assertion and come to an end, and
-- the offset_delta that they leave is not past the buffer's end.
pub parse_at-IsInside :
    (buffer : List ℕ) (offset : ℕ)
    → ((tsize : ℕ)
        → extract_uint32_7bit (drop offset buffer) 6 ≡ ok tsize
        → tsize + 19 ≤ length (drop offset buffer))
    → (r : List Call × ℕ) × (parse_at buffer offset ≡ ok r) × IsInside (drop offset buffer) r
parse_at-IsInside buffer offset h =
    Within-NoFault (IsInside (drop offset buffer)) (parse_at buffer offset) (
      parse_at-Within NoFault buffer offset
        (Room-NoFault 9 _ (omega arith) (λ tsize e. omega (arith, h tsize e)))
        (Room-NoFault 5 _ (omega arith) (λ tsize e. omega (arith, h tsize e))))
