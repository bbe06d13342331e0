-- ===== src/Mp3/Tags/Printed/Loop.antt =====
-- The loop of parse_id3v24 and parse_id3v23 on the frames that a writer writes.
use tracker_miners.Base.{
  ℕ, zero, suc, ◌+◌, ◌≤◌, ◌<◌, ◌≡◌, refl, sym, ap, subst, ◌∙◌, Bool, true, false, List, [], ◌∷◌,
  ◌++◌, append_assoc, ltb, arith, length, length-append,
}
use tracker_miners.Mp3.{Fault, Outcome, ok, fault, ◌>>=◌}
use tracker_miners.Mp3.Reads.{bind_ok}
use tracker_miners.Mp3.Unsync.{length-stuffed}
use tracker_miners.Mp3.Tables.{Id3v24frame}
use tracker_miners.Mp3.Tags.{Call, Turn, break, hand, frame_turn, follow, frame_loop}
use tracker_miners.Mp3.Tags.Printed.{
  frame_name, byte_256, number_bytes, written, frame_bytes, frames_bytes, frames_size, frame_calls,
  is_writable,
}
use tracker_miners.Mp3.Tags.Printed.Turns.{frame_turn-written}
use tracker_miners.Mp3.Tags.Printed.Written.{IsWritten}

abbrev pub prefixed : List Call → Outcome (List Call) → Outcome (List Call)
prefixed [] o = o
prefixed (c ∷ cs) o = prefixed cs o >>= λ calls. ok (c ∷ calls)

pub prefixed-ok : (cs : List Call) → prefixed cs (ok []) ≡ ok cs
prefixed-ok [] = refl
prefixed-ok (c ∷ cs) = bind_ok (prefixed cs (ok [])) _ cs _ (prefixed-ok cs) refl

pub prefixed-fault : (cs : List Call) (e : Fault) → prefixed cs (fault e) ≡ fault e
prefixed-fault [] e = refl
prefixed-fault (c ∷ cs) e = ap (λ o. o >>= λ calls. ok (c ∷ calls)) (prefixed-fault cs e)

elim_true : {A : Type 0} (b : Bool) (o p : A) → b ≡ true → elim b [ true ↦ o | false ↦ p ] ≡ o
elim_true true o p h = refl
elim_true false o p h = absurd (ground (arith, h))

length-written :
    (unsync : Bool) (content : List ℕ) → length content ≤ length (written unsync content)
length-written true content = length-stuffed content
length-written false content = omega arith

-- the frames, and what is behind them, apart
pub frames_bytes-append :
    (byte : ℕ → ℕ → ℕ) (unsync : Bool) (fs : List (Id3v24frame × List ℕ)) (rest : List ℕ)
    → frames_bytes byte unsync fs rest ≡ frames_bytes byte unsync fs [] ++ rest
frames_bytes-append byte unsync [] rest = refl
frames_bytes-append byte unsync (f ∷ fs) rest =
    ap (frame_bytes byte unsync f) (frames_bytes-append byte unsync fs rest)
    ∙ ap
        (λ t.
          number_bytes byte_256 (frame_name f.0)
            (number_bytes byte (length (written unsync f.1)) (0 ∷ 0 ∷ t)))
        (sym (append_assoc (written unsync f.1) (frames_bytes byte unsync fs []) rest))

pub length-frames_bytes :
    (byte : ℕ → ℕ → ℕ) (unsync : Bool) (fs : List (Id3v24frame × List ℕ)) (rest : List ℕ)
    → length (frames_bytes byte unsync fs rest) ≡ frames_size unsync fs + length rest
length-frames_bytes byte unsync [] rest = omega arith
length-frames_bytes byte unsync (f ∷ fs) rest = omega (
  arith,
  length-append (written unsync f.1) (frames_bytes byte unsync fs rest),
  length-frames_bytes byte unsync fs rest,
)

module _ (tags : Id3v24frame → List ℕ → Call) (footers : Bool) (size_at : List ℕ → ℕ → Outcome ℕ)
    (byte : ℕ → ℕ → ℕ) (limit : ℕ)
    (sizes : (buffer : List ℕ) (p n : ℕ)
      → IsWritten byte buffer p n
      → n < limit
      → size_at buffer p ≡ ok n)
    (unsync : Bool) (buffer : List ℕ) (tsize : ℕ) where
  abbrev pub turn : ℕ → Outcome Turn
  turn pos = frame_turn tags footers size_at unsync buffer tsize pos

  abbrev pub EndsIn : Outcome (List Call) → ℕ → Type 0
  EndsIn o pos = (fuel : ℕ) → tsize + 10 ≤ pos + fuel → frame_loop turn fuel (tsize + 10) pos ≡ o

  pub EndsIn-end : EndsIn (ok []) (tsize + 10)
  unfolding frame_loop
  EndsIn-end zero h = ground arith
  EndsIn-end (suc fuel) h = ground arith

  frame_loop-turn :
      (fuel pos : ℕ)
      → pos < tsize + 10
      → frame_loop turn (suc fuel) (tsize + 10) pos
        ≡ (turn pos >>= follow (frame_loop turn fuel (tsize + 10)))
  unfolding frame_loop
  frame_loop-turn fuel pos h = elim_true (ltb pos (tsize + 10)) _ _ (ground arith)

  pub EndsIn-break : (pos : ℕ) → pos < tsize + 10 → turn pos ≡ ok break → EndsIn (ok []) pos
  EndsIn-break pos h e zero k = absurd (omega arith)
  EndsIn-break pos h e (suc fuel) k =
      frame_loop-turn fuel pos h ∙ bind_ok (turn pos) _ break _ e refl

  pub EndsIn-fault :
      (pos : ℕ) (f : Fault) → pos < tsize + 10 → turn pos ≡ fault f → EndsIn (fault f) pos
  EndsIn-fault pos f h e zero k = absurd (omega arith)
  EndsIn-fault pos f h e (suc fuel) k = frame_loop-turn fuel pos h ∙ rw e refl

  EndsIn-hand :
      (pos next : ℕ) (call : Call) (o : Outcome (List Call))
      → pos < tsize + 10
      → pos < next
      → turn pos ≡ ok (hand call next)
      → EndsIn o next
      → EndsIn (o >>= λ calls. ok (call ∷ calls)) pos
  EndsIn-hand pos next call o h l e i zero k = absurd (omega arith)
  EndsIn-hand pos next call o h l e i (suc fuel) k =
      frame_loop-turn fuel pos h
      ∙ bind_ok (turn pos) _ (hand call next) _ e
          (ap (λ r. r >>= λ calls. ok (call ∷ calls)) (i fuel (omega arith)))

  pub EndsIn-frames :
      (fs : List (Id3v24frame × List ℕ)) (pre rest : List ℕ) (pos : ℕ) (o : Outcome (List Call))
      → buffer ≡ pre ++ frames_bytes byte unsync fs rest
      → pos ≡ length pre
      → is_writable fs ≡ true
      → frames_size unsync fs < limit
      → pos + frames_size unsync fs ≤ tsize + 10
      → EndsIn o (pos + frames_size unsync fs)
      → EndsIn (prefixed (frame_calls tags fs) o) pos
  EndsIn-frames [] pre rest pos o b p w l h i =
      λ fuel k. ap (frame_loop turn fuel (tsize + 10)) (ground arith) ∙ i fuel (omega arith)
  EndsIn-frames ((frame, content) ∷ fs) pre rest pos o b p w l h i =
      let n = length (written unsync content) in
      let block =
        number_bytes byte_256 (frame_name frame)
          (number_bytes byte n (0 ∷ 0 ∷ written unsync content)) in
      EndsIn-hand pos (pos + 10 + n) (tags frame content) (prefixed (frame_calls tags fs) o)
        (omega arith) (omega arith)
        (ap (λ x. frame_turn tags footers size_at unsync x tsize pos) b
          ∙ (ap
                (frame_turn tags footers size_at unsync
                  (pre ++ frames_bytes byte unsync ((frame, content) ∷ fs) rest) tsize)
                p
              ∙ (frame_turn-written tags footers size_at byte limit sizes unsync frame content pre
                    (frames_bytes byte unsync fs rest) tsize (ground arith)
                    (ground (arith, length-written unsync content)) (omega arith) (omega arith)
                  ∙ ap (λ x. ok (hand (tags frame content) (x + 10 + n))) (sym p))))
        (EndsIn-frames fs (pre ++ block) rest (pos + 10 + n) o
          (b ∙ sym (append_assoc pre block (frames_bytes byte unsync fs rest)))
          (omega (arith, length-append pre block)) (ground arith) (omega arith) (omega arith)
          (subst (EndsIn o) (ground arith) i))
