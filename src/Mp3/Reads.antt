-- ===== src/Mp3/Reads.antt =====
-- What holds of an outcome, and the reads inside a buffer.
use tracker_miners.Base.{
  Bool, true, false, if◌then◌else◌, ℕ, zero, suc, ◌+◌, ◌<◌, ◌≡◌, refl, List, [], ◌∷◌, ◌++◌, arith,
  length, get_elem?,
}
use tracker_miners.Mp3.{
  Outcome, ok, fault, Fault, ◌>>=◌, read, extract_uint32, extract_uint16, extract_uint32_7bit,
  extract_uint32_3byte,
}

-- A value has the property, and a fault is one that is allowed.
abbrev pub Within : {A : Type 0} → (Fault → Type 0) → (A → Type 0) → Outcome A → Type 0
Within allowed P (ok a) = P a
Within allowed P (fault e) = allowed e

abbrev pub Any : {A : Type 0} → A → Type 0
Any a = Unit

pub Within-bind :
    {A B : Type 0} (allowed : Fault → Type 0) (P : A → Type 0) (Q : B → Type 0) (o : Outcome A)
    (f : A → Outcome B)
    → Within allowed P o
    → ((a : A) → P a → Within allowed Q (f a))
    → Within allowed Q (o >>= f)
Within-bind allowed P Q (ok a) f h k = k a h
Within-bind allowed P Q (fault e) f h k = h

-- as Within-bind, with the value known
pub Within-bind_known :
    {A B : Type 0} (allowed : Fault → Type 0) (P : A → Type 0) (Q : B → Type 0) (o : Outcome A)
    (f : A → Outcome B)
    → Within allowed P o
    → ((a : A) → o ≡ ok a → P a → Within allowed Q (f a))
    → Within allowed Q (o >>= f)
Within-bind_known allowed P Q (ok a) f h k = k a refl h
Within-bind_known allowed P Q (fault e) f h k = h

pub Within-if :
    {A : Type 0} (allowed : Fault → Type 0) (P : A → Type 0) (b : Bool) (o p : Outcome A)
    → (b ≡ true → Within allowed P o)
    → (b ≡ false → Within allowed P p)
    → Within allowed P (if b then o else p)
Within-if allowed P true o p h k = h refl
Within-if allowed P false o p h k = k refl

pub Within-elim :
    {A : Type 0} (allowed : Fault → Type 0) (P : A → Type 0) (b : Bool) (o p : Outcome A)
    → (b ≡ true → Within allowed P o)
    → (b ≡ false → Within allowed P p)
    → Within allowed P (elim b [ true ↦ o | false ↦ p ])
Within-elim allowed P true o p h k = h refl
Within-elim allowed P false o p h k = k refl

-- the reads below a bound
abbrev pub Reads : (Fault → Type 0) → List ℕ → ℕ → Type 0
Reads allowed buffer bound = (i : ℕ) → i < bound → Within allowed Any (read buffer i)

module _ (allowed : Fault → Type 0) (buffer : List ℕ) (bound : ℕ)
    (reads : Reads allowed buffer bound) where
  pub read-bind :
      {B : Type 0} (i : ℕ)
      → i < bound
      → (Q : B → Type 0) (f : ℕ → Outcome B) → ((a : ℕ) → Within allowed Q (f a))
      → Within allowed Q (read buffer i >>= f)
  read-bind i h Q f k = Within-bind allowed Any Q (read buffer i) f (reads i h) (λ a u. k a)

  pub extract_uint32-Within : (p : ℕ) → p + 3 < bound → Within allowed Any (extract_uint32 buffer p)
  unfolding extract_uint32
  extract_uint32-Within p h = read-bind p (omega arith) Any _ λ a.
      read-bind (p + 1) (omega arith) Any _ λ b.
        read-bind (p + 2) (omega arith) Any _ λ c. read-bind (p + 3) (omega arith) Any _ λ d. tt

  pub extract_uint16-Within : (p : ℕ) → p + 1 < bound → Within allowed Any (extract_uint16 buffer p)
  unfolding extract_uint16
  extract_uint16-Within p h =
      read-bind p (omega arith) Any _ λ a. read-bind (p + 1) (omega arith) Any _ λ b. tt

  pub extract_uint32_7bit-Within :
      (p : ℕ) → p + 3 < bound → Within allowed Any (extract_uint32_7bit buffer p)
  unfolding extract_uint32_7bit
  extract_uint32_7bit-Within p h = read-bind p (omega arith) Any _ λ a.
      read-bind (p + 1) (omega arith) Any _ λ b.
        read-bind (p + 2) (omega arith) Any _ λ c. read-bind (p + 3) (omega arith) Any _ λ d. tt

  pub extract_uint32_3byte-Within :
      (p : ℕ) → p + 2 < bound → Within allowed Any (extract_uint32_3byte buffer p)
  unfolding extract_uint32_3byte
  extract_uint32_3byte-Within p h =
      read-bind p (omega arith) Any _ λ a.
        read-bind (p + 1) (omega arith) Any _ λ b. read-bind (p + 2) (omega arith) Any _ λ c. tt

get_elem?-behind :
    (pre ys : List ℕ) (i k : ℕ) → i ≡ length pre + k → get_elem? (pre ++ ys) i ≡ get_elem? ys k
get_elem?-behind [] ys i k h = ground (arith, h)
get_elem?-behind (x ∷ pre) ys zero k h = absurd (omega arith)
get_elem?-behind (x ∷ pre) ys (suc i) k h = get_elem?-behind pre ys i k (omega arith)

-- a read behind a prefix
pub read-behind : (pre ys : List ℕ) (i k : ℕ) → i ≡ length pre + k → read (pre ++ ys) i ≡ read ys k
unfolding read
read-behind pre ys i k h = rw (get_elem?-behind pre ys i k h) refl

-- a chain of outcomes, a step at a time
pub bind_ok :
    {A B : Type 0} (o : Outcome A) (f : A → Outcome B) (a : A) (r : Outcome B)
    → o ≡ ok a
    → f a ≡ r
    → (o >>= f) ≡ r
bind_ok o f a r e h = rw e h

pub if_true :
    {A : Type 0} (b : Bool) (o p r : Outcome A) → b ≡ true → o ≡ r → (if b then o else p) ≡ r
if_true b o p r e h = rw e h

pub if_false :
    {A : Type 0} (b : Bool) (o p r : Outcome A) → b ≡ false → p ≡ r → (if b then o else p) ≡ r
if_false b o p r e h = rw e h
