-- ===== src/Mp3/Tags/Printed.antt =====
-- Tags as a writer writes them: frames without flags, and padding behind them.
pub mod Written
pub mod Turns
pub mod Loop
pub mod RoundTrip
use tracker_miners.Base.{
  ℕ, zero, suc, ◌+◌, ◌*◌, ◌/◌, ◌%◌, ◌^◌, Bool, true, false, not, ◌&&◌, List, [], ◌∷◌, ◌++◌, nat_eq,
  ltb, length, map, arith, if◌then◌else◌, refl, ◌≡◌,
}
use tracker_miners.Mp3.{Outcome, ok}
use tracker_miners.Mp3.Unsync.{stuffed}
use tracker_miners.Mp3.Tables.{
  Id3v24frame, id3v24_frames, id3v24_apic, id3v24_comm, id3v24_ipls, id3v24_talb, id3v24_tcom,
  id3v24_tcon, id3v24_tcop, id3v24_tdrc, id3v24_tdrl, id3v24_tenc, id3v24_text, id3v24_tit1,
  id3v24_tit2, id3v24_tit3, id3v24_tlen, id3v24_tmcl, id3v24_toly, id3v24_tpe1, id3v24_tpe2,
  id3v24_tpos, id3v24_tpub, id3v24_trck, id3v24_txxx, id3v24_tyer, id3v24_ufid, id3v24_unknown,
}
use tracker_miners.Mp3.Tables.Scan.{scan_frames}
use tracker_miners.Mp3.Tags.{Call}

-- a frame's name, as the number that its bytes make
abbrev pub frame_name : Id3v24frame → ℕ
frame_name id3v24_unknown = 0
frame_name id3v24_apic = 0x41504943
frame_name id3v24_comm = 0x434f4d4d
frame_name id3v24_ipls = 0x49504c53
frame_name id3v24_talb = 0x54414c42
frame_name id3v24_tcom = 0x54434f4d
frame_name id3v24_tcon = 0x54434f4e
frame_name id3v24_tcop = 0x54434f50
frame_name id3v24_tdrc = 0x54445243
frame_name id3v24_tdrl = 0x5444524c
frame_name id3v24_tenc = 0x54454e43
frame_name id3v24_text = 0x54455854
frame_name id3v24_tit1 = 0x54495431
frame_name id3v24_tit2 = 0x54495432
frame_name id3v24_tit3 = 0x54495433
frame_name id3v24_tlen = 0x544c454e
frame_name id3v24_tmcl = 0x544d434c
frame_name id3v24_toly = 0x544f4c59
frame_name id3v24_tpe1 = 0x54504531
frame_name id3v24_tpe2 = 0x54504532
frame_name id3v24_tpos = 0x54504f53
frame_name id3v24_tpub = 0x54505542
frame_name id3v24_trck = 0x5452434b
frame_name id3v24_txxx = 0x54585858
frame_name id3v24_tyer = 0x54594552
frame_name id3v24_ufid = 0x55464944

abbrev pub is_known : Id3v24frame → Bool
is_known id3v24_unknown = false
is_known frame = true

-- A name has four bytes, of which the first is no NUL, and is none of those that end in a footer.
abbrev pub is_name : ℕ → Bool
is_name name = ltb 0 (name / 16777216) && ltb name 4294967296 && not (nat_eq (name / 256) 0x334449)

pub frame_name-is_name :
    (frame : Id3v24frame) → is_known frame ≡ true → is_name (frame_name frame) ≡ true
frame_name-is_name id3v24_unknown h = absurd (ground (arith, h))
frame_name-is_name id3v24_apic h = refl
frame_name-is_name id3v24_comm h = refl
frame_name-is_name id3v24_ipls h = refl
frame_name-is_name id3v24_talb h = refl
frame_name-is_name id3v24_tcom h = refl
frame_name-is_name id3v24_tcon h = refl
frame_name-is_name id3v24_tcop h = refl
frame_name-is_name id3v24_tdrc h = refl
frame_name-is_name id3v24_tdrl h = refl
frame_name-is_name id3v24_tenc h = refl
frame_name-is_name id3v24_text h = refl
frame_name-is_name id3v24_tit1 h = refl
frame_name-is_name id3v24_tit2 h = refl
frame_name-is_name id3v24_tit3 h = refl
frame_name-is_name id3v24_tlen h = refl
frame_name-is_name id3v24_tmcl h = refl
frame_name-is_name id3v24_toly h = refl
frame_name-is_name id3v24_tpe1 h = refl
frame_name-is_name id3v24_tpe2 h = refl
frame_name-is_name id3v24_tpos h = refl
frame_name-is_name id3v24_tpub h = refl
frame_name-is_name id3v24_trck h = refl
frame_name-is_name id3v24_txxx h = refl
frame_name-is_name id3v24_tyer h = refl
frame_name-is_name id3v24_ufid h = refl

pub scan_frames-frame_name :
    (frame : Id3v24frame) → scan_frames id3v24_unknown id3v24_frames (frame_name frame) ≡ frame
unfolding id3v24_frames
scan_frames-frame_name id3v24_unknown = refl
scan_frames-frame_name id3v24_apic = refl
scan_frames-frame_name id3v24_comm = refl
scan_frames-frame_name id3v24_ipls = refl
scan_frames-frame_name id3v24_talb = refl
scan_frames-frame_name id3v24_tcom = refl
scan_frames-frame_name id3v24_tcon = refl
scan_frames-frame_name id3v24_tcop = refl
scan_frames-frame_name id3v24_tdrc = refl
scan_frames-frame_name id3v24_tdrl = refl
scan_frames-frame_name id3v24_tenc = refl
scan_frames-frame_name id3v24_text = refl
scan_frames-frame_name id3v24_tit1 = refl
scan_frames-frame_name id3v24_tit2 = refl
scan_frames-frame_name id3v24_tit3 = refl
scan_frames-frame_name id3v24_tlen = refl
scan_frames-frame_name id3v24_tmcl = refl
scan_frames-frame_name id3v24_toly = refl
scan_frames-frame_name id3v24_tpe1 = refl
scan_frames-frame_name id3v24_tpe2 = refl
scan_frames-frame_name id3v24_tpos = refl
scan_frames-frame_name id3v24_tpub = refl
scan_frames-frame_name id3v24_trck = refl
scan_frames-frame_name id3v24_txxx = refl
scan_frames-frame_name id3v24_tyer = refl
scan_frames-frame_name id3v24_ufid = refl

-- how the bytes of a number are written, the highest first: byte `k` of `n`
abbrev pub byte_256 : ℕ → ℕ → ℕ
byte_256 k n = n / 256 ^ k % 256

abbrev pub byte_128 : ℕ → ℕ → ℕ
byte_128 k n = n / 128 ^ k % 128

abbrev pub number_bytes : (ℕ → ℕ → ℕ) → ℕ → List ℕ → List ℕ
number_bytes byte n rest = byte 3 n ∷ byte 2 n ∷ byte 1 n ∷ byte 0 n ∷ rest

-- a frame's content in the file
abbrev pub written : Bool → List ℕ → List ℕ
written unsync content = if unsync then stuffed content else content

-- The frames, and what is behind them.
abbrev pub frame_bytes : (ℕ → ℕ → ℕ) → Bool → Id3v24frame × List ℕ → List ℕ → List ℕ
frame_bytes byte unsync (frame, content) rest =
    number_bytes byte_256 (frame_name frame) (
      number_bytes byte (length (written unsync content))
        (0 ∷ 0 ∷ (written unsync content ++ rest)))

abbrev pub frames_bytes : (ℕ → ℕ → ℕ) → Bool → List (Id3v24frame × List ℕ) → List ℕ → List ℕ
frames_bytes byte unsync [] rest = rest
frames_bytes byte unsync (f ∷ fs) rest =
    frame_bytes byte unsync f (frames_bytes byte unsync fs rest)

abbrev pub frames_size : Bool → List (Id3v24frame × List ℕ) → ℕ
frames_size unsync [] = 0
frames_size unsync (f ∷ fs) = 10 + length (written unsync f.1) + frames_size unsync fs

abbrev pub zeros : ℕ → List ℕ → List ℕ
zeros zero rest = rest
zeros (suc n) rest = 0 ∷ zeros n rest

pub length-zeros : (n : ℕ) (rest : List ℕ) → length (zeros n rest) ≡ n + length rest
length-zeros zero rest = omega arith
length-zeros (suc n) rest = omega (arith, length-zeros n rest)

-- a tag with `padding` zero bytes, and what is behind it
abbrev pub tag_bytes : ℕ → (ℕ → ℕ → ℕ) → Bool → List (Id3v24frame × List ℕ) → ℕ → List ℕ → List ℕ
tag_bytes version byte unsync frames padding rest =
    0x49
    ∷ 0x44
    ∷ 0x33
    ∷ version
    ∷ 0
    ∷ (if unsync then 0x80 else 0)
    ∷ number_bytes byte_128 (frames_size unsync frames + padding)
        (frames_bytes byte unsync frames (zeros padding rest))

abbrev pub frame_calls : (Id3v24frame → List ℕ → Call) → List (Id3v24frame × List ℕ) → List Call
frame_calls tags frames = map (λ f. tags f.0 f.1) frames

-- the frames that a writer can write: known ones, with a content
abbrev pub is_writable : List (Id3v24frame × List ℕ) → Bool
is_writable [] = true
is_writable (f ∷ fs) = is_known f.0 && ltb 0 (length f.1) && is_writable fs
