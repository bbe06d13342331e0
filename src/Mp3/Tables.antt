-- ===== src/Mp3/Tables.antt =====
-- The tables of frame names, and the binary searches id3v24_get_frame and id3v2_get_frame.
-- A name is the number that its bytes make, the first one highest. Names of one length are ordered as by
-- strncmp, since no name of a table has a NUL: the first byte that differs decides at or before a NUL.
pub mod Scan
pub mod Lookup
use tracker_miners.Base.{
  ℕ, zero, suc, ◌+◌, ◌-◌, ◌/◌, Bool, true, false, not, ◌&&◌, Option, none, some, List, [], ◌∷◌,
  nat_eq, ltb, length, get_elem?,
}
use tracker_miners.Mp3.{Outcome, ok, fault, out_of_bounds, stuck, ◌>>=◌}

pub data Id3v24frame : Type 0 where
  id3v24_unknown id3v24_apic id3v24_comm id3v24_ipls id3v24_talb id3v24_tcom id3v24_tcon id3v24_tcop
        id3v24_tdrc id3v24_tdrl id3v24_tenc id3v24_text id3v24_tit1 id3v24_tit2 id3v24_tit3
        id3v24_tlen id3v24_tmcl id3v24_toly id3v24_tpe1 id3v24_tpe2 id3v24_tpub id3v24_trck
        id3v24_tpos id3v24_txxx id3v24_tyer id3v24_ufid :
      Id3v24frame

pub data Id3v2frame : Type 0 where
  id3v2_unknown id3v2_com id3v2_pic id3v2_tal id3v2_tco id3v2_tcr id3v2_ten id3v2_tle id3v2_tpb
        id3v2_tp1 id3v2_tp2 id3v2_trk id3v2_tt1 id3v2_tt2 id3v2_tt3 id3v2_txt id3v2_tye :
      Id3v2frame

-- the sorted arrays of names and frames
unfoldable pub id3v24_frames : List (ℕ × Id3v24frame)
id3v24_frames =
    (0x41504943, id3v24_apic)
    ∷ (0x434f4d4d, id3v24_comm)
    ∷ (0x49504c53, id3v24_ipls)
    ∷ (0x54414c42, id3v24_talb)
    ∷ (0x54434f4d, id3v24_tcom)
    ∷ (0x54434f4e, id3v24_tcon)
    ∷ (0x54434f50, id3v24_tcop)
    ∷ (0x54445243, id3v24_tdrc)
    ∷ (0x5444524c, id3v24_tdrl)
    ∷ (0x54454e43, id3v24_tenc)
    ∷ (0x54455854, id3v24_text)
    ∷ (0x54495431, id3v24_tit1)
    ∷ (0x54495432, id3v24_tit2)
    ∷ (0x54495433, id3v24_tit3)
    ∷ (0x544c454e, id3v24_tlen)
    ∷ (0x544d434c, id3v24_tmcl)
    ∷ (0x544f4c59, id3v24_toly)
    ∷ (0x54504531, id3v24_tpe1)
    ∷ (0x54504532, id3v24_tpe2)
    ∷ (0x54504f53, id3v24_tpos)
    ∷ (0x54505542, id3v24_tpub)
    ∷ (0x5452434b, id3v24_trck)
    ∷ (0x54585858, id3v24_txxx)
    ∷ (0x54594552, id3v24_tyer)
    ∷ (0x55464944, id3v24_ufid)
    ∷ []

unfoldable pub id3v2_frames : List (ℕ × Id3v2frame)
id3v2_frames =
    (0x434f4d, id3v2_com)
    ∷ (0x504943, id3v2_pic)
    ∷ (0x54414c, id3v2_tal)
    ∷ (0x54434f, id3v2_tco)
    ∷ (0x544352, id3v2_tcr)
    ∷ (0x54454e, id3v2_ten)
    ∷ (0x544c45, id3v2_tle)
    ∷ (0x545031, id3v2_tp1)
    ∷ (0x545032, id3v2_tp2)
    ∷ (0x545042, id3v2_tpb)
    ∷ (0x54524b, id3v2_trk)
    ∷ (0x545431, id3v2_tt1)
    ∷ (0x545432, id3v2_tt2)
    ∷ (0x545433, id3v2_tt3)
    ∷ (0x545854, id3v2_txt)
    ∷ (0x545945, id3v2_tye)
    ∷ []

abbrev pub entry_of : {A : Type 0} → Option (ℕ × A) → Outcome (ℕ × A)
entry_of none = fault out_of_bounds
entry_of (some e) = ok e

-- The loop of both searches; `end` is the code's `r` plus one, since `r` goes down to -1. It gives the
-- entry at `m` where it stops.
unfoldable pub search_frames : {A : Type 0} → ℕ → List (ℕ × A) → ℕ → ℕ → ℕ → Outcome (ℕ × A)
search_frames zero table name l end = fault stuck
search_frames (suc fuel) table name l end = entry_of (get_elem? table ((l + end - 1) / 2)) >>= λ e.
    elim (ltb name e.0) [
      | true ↦ elim (ltb l ((l + end - 1) / 2) && not (nat_eq e.0 name)) [
        | true ↦ search_frames fuel table name l ((l + end - 1) / 2)
        | false ↦ ok e
      ]
      | false ↦ elim (ltb ((l + end - 1) / 2 + 1) end && not (nat_eq e.0 name)) [
        | true ↦ search_frames fuel table name ((l + end - 1) / 2 + 1) end
        | false ↦ ok e
      ]
    ]

abbrev pub frame_at : {A : Type 0} → A → ℕ → ℕ × A → A
frame_at unknown name e = elim (nat_eq e.0 name) [ true ↦ e.1 | false ↦ unknown ]

unfoldable pub get_frame : {A : Type 0} → A → List (ℕ × A) → ℕ → Outcome A
get_frame unknown table name =
    search_frames (length table) table name 0 (length table) >>= λ e. ok (frame_at unknown name e)

abbrev pub id3v24_get_frame : ℕ → Outcome Id3v24frame
id3v24_get_frame name = get_frame id3v24_unknown id3v24_frames name

abbrev pub id3v2_get_frame : ℕ → Outcome Id3v2frame
id3v2_get_frame name = get_frame id3v2_unknown id3v2_frames name
