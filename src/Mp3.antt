-- ===== src/Mp3.antt =====
-- src/tracker-extract/tracker-extract-mp3.c: the ID3v2 tags at the start of a file, read from a buffer.
-- A buffer is the list of its bytes. A read outside of it, and a failed g_assert, are faults. Sizes and
-- positions in a buffer of less than 2 ^ 32 bytes do not wrap, and the parser is modelled on those;
-- the code maps 5 MB at most. What is read into the fields of a tag is not modelled: a parser's result
-- lists the frames that it hands over, with their contents.
pub mod Reads
pub mod Unsync
pub mod Tables
pub mod Tags
pub mod Safe
mod Examples
use tracker_miners.Base.{
  ℕ, zero, suc, ◌+◌, ◌*◌, ◌/◌, ◌%◌, Bool, true, false, Option, none, some, List, [], ◌∷◌, nat_eq,
  if◌then◌else◌, length, get_elem?,
}

-- `stuck` is no fault of the code: the fuel of a loop ran out.
pub data Fault : Type 0 where
  out_of_bounds assertion_failed stuck : Fault

pub data Outcome {ℓ} (A : Type ℓ) : Type ℓ where
  ok : A → Outcome A
  fault : Fault → Outcome A

infixl 5 ◌>>=◌
abbrev pub ◌>>=◌ {ℓ κ} : {A : Type ℓ} {B : Type κ} → Outcome A → (A → Outcome B) → Outcome B
ok a >>= f = f a
fault e >>= f = fault e

abbrev pub bit : ℕ → ℕ → Bool
bit weight b = nat_eq (b / weight % 2) 1

abbrev pub of_option : Option ℕ → Outcome ℕ
of_option none = fault out_of_bounds
of_option (some b) = ok b

unfoldable pub read : List ℕ → ℕ → Outcome ℕ
read buffer i = of_option (get_elem? buffer i)

-- The helpers that read a number: the parts have no bits in common, so that `|` adds them.
unfoldable pub extract_uint32 : List ℕ → ℕ → Outcome ℕ
unfolding read
extract_uint32 buffer p = do
  a ← read buffer p
  b ← read buffer (p + 1)
  c ← read buffer (p + 2)
  d ← read buffer (p + 3)
  ok (a * 16777216 + b * 65536 + c * 256 + d)

unfoldable pub extract_uint16 : List ℕ → ℕ → Outcome ℕ
unfolding read
extract_uint16 buffer p = do a ← read buffer p; b ← read buffer (p + 1); ok (a * 256 + b)

unfoldable pub extract_uint32_7bit : List ℕ → ℕ → Outcome ℕ
unfolding read
extract_uint32_7bit buffer p = do
  a ← read buffer p
  b ← read buffer (p + 1)
  c ← read buffer (p + 2)
  d ← read buffer (p + 3)
  ok (a % 128 * 2097152 + b % 128 * 16384 + c % 128 * 128 + d % 128)

unfoldable pub extract_uint32_3byte : List ℕ → ℕ → Outcome ℕ
unfolding read
extract_uint32_3byte buffer p = do
  a ← read buffer p
  b ← read buffer (p + 1)
  c ← read buffer (p + 2)
  ok (a * 65536 + b * 256 + c)
