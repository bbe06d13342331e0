-- ===== src/Mp3/Unsync.antt =====
-- un_unsync, which takes out the zero bytes that a writer puts behind bytes 0xFF.
use tracker_miners.Base.{
  ℕ, zero, suc, ◌+◌, ◌-◌, ◌≤◌, ◌<◌, ◌≡◌, refl, ap, inl, inr, true, false, List, [], ◌∷◌, ◌++◌,
  nat_eq, ltb, ltb→lt, arith, if◌then◌else◌, length, append_assoc, Bool-cases, length-append,
}
use tracker_miners.Mp3.{Fault, Outcome, ok, fault, stuck, ◌>>=◌, read}
use tracker_miners.Mp3.Reads.{
  Within, Any, Within-bind, Within-if, Within-elim, Reads, read-bind, read-behind,
}

abbrev pub take : ℕ → List ℕ → List ℕ
take zero xs = []
take (suc n) [] = []
take (suc n) (x ∷ xs) = x ∷ take n xs

-- a byte that the loop writes, before the others
abbrev pub emit : ℕ → Outcome (List ℕ × ℕ) → Outcome (List ℕ × ℕ)
emit c o = o >>= λ (written, new_size). ok (c ∷ written, new_size)

-- The loop, on the bytes at `base` of the buffer. It gives the bytes that it writes, and `new_size`.
unfoldable pub un_unsync_loop : ℕ → List ℕ → ℕ → ℕ → ℕ → ℕ → Outcome (List ℕ × ℕ)
un_unsync_loop zero buffer base size offset new_size =
    if ltb offset size then fault stuck else ok ([], new_size)
un_unsync_loop (suc fuel) buffer base size offset new_size = elim (ltb offset size) [
  | false ↦ ok ([], new_size)
  | true ↦ read buffer (base + offset) >>= λ c. elim (nat_eq c 0xff) [
    | false ↦ emit c (un_unsync_loop fuel buffer base size (offset + 1) new_size)
    | true ↦ read buffer (base + (offset + 1)) >>= λ n. elim (nat_eq n 0) [
      | false ↦ emit c (un_unsync_loop fuel buffer base size (offset + 1) new_size)
      | true ↦ emit c (un_unsync_loop fuel buffer base size (offset + 2) (new_size - 1))
    ]
  ]
]

-- the bytes that the caller reads back, `dest_size` of them
unfoldable pub un_unsync : List ℕ → ℕ → ℕ → Outcome (List ℕ)
un_unsync buffer base size = un_unsync_loop size buffer base size 0 size >>= λ (written, new_size).
    ok (take new_size written)

module _ (allowed : Fault → Type 0) (buffer : List ℕ) (bound : ℕ)
    (reads : Reads allowed buffer bound) where
  emit-Within :
      (c : ℕ) (o : Outcome (List ℕ × ℕ)) → Within allowed Any o → Within allowed Any (emit c o)
  emit-Within c o h = Within-bind allowed Any Any o _ h (λ a u. tt)

  un_unsync_loop-Within :
      (fuel base size offset new_size : ℕ)
      → base + size < bound
      → size ≤ offset + fuel
      → Within allowed Any (un_unsync_loop fuel buffer base size offset new_size)
  unfolding un_unsync_loop
  un_unsync_loop-Within zero base size offset new_size h k =
      Within-if allowed Any (ltb offset size) _ _
        (λ e. absurd (ground (arith, ltb→lt offset size e))) (λ e. tt)
  un_unsync_loop-Within (suc fuel) base size offset new_size h k =
      Within-elim allowed Any (ltb offset size) _ _
        (λ e.
          read-bind allowed buffer bound reads (base + offset) (omega (arith, ltb→lt offset size e))
            Any _
            λ c.
              Within-elim allowed Any (nat_eq c 0xff) _ _
                (λ f.
                  read-bind allowed buffer bound reads (base + (offset + 1))
                    (omega (arith, ltb→lt offset size e)) Any _
                    λ n.
                      Within-elim allowed Any (nat_eq n 0) _ _
                        (λ g. emit-Within c _ (
                          un_unsync_loop-Within fuel base size (offset + 2) (new_size - 1) h
                            (omega arith)))
                        (λ g. emit-Within c _ (
                          un_unsync_loop-Within fuel base size (offset + 1) new_size h
                            (omega arith))))
                (λ f.
                  emit-Within c _
                    (un_unsync_loop-Within fuel base size (offset + 1) new_size h (omega arith))))
        (λ e. tt)

  -- With a byte of the buffer behind its source, un_unsync reads nothing outside of the buffer.
  pub un_unsync-Within :
      (base size : ℕ) → base + size < bound → Within allowed Any (un_unsync buffer base size)
  unfolding un_unsync
  un_unsync-Within base size h =
      Within-bind allowed Any Any (un_unsync_loop size buffer base size 0 size) _
        (un_unsync_loop-Within size base size 0 size h (omega arith)) (λ a u. tt)

-- what a writer makes of a frame's content
abbrev pub stuffed : List ℕ → List ℕ
stuffed [] = []
stuffed (x ∷ xs) = if nat_eq x 0xff then 0xff ∷ 0 ∷ stuffed xs else x ∷ stuffed xs

pub length-stuffed : (xs : List ℕ) → length xs ≤ length (stuffed xs)
length-stuffed [] = omega arith
length-stuffed (x ∷ xs) = ground (arith, length-stuffed xs)

length-take : (xs : List ℕ) → take (length xs) xs ≡ xs
length-take [] = refl
length-take (x ∷ xs) = ap (◌∷◌ x) (length-take xs)

stuffed_full :
    (x : ℕ) (xs : List ℕ) → nat_eq x 0xff ≡ true → stuffed (x ∷ xs) ≡ 0xff ∷ 0 ∷ stuffed xs
stuffed_full x xs h = rw h refl

stuffed_plain : (x : ℕ) (xs : List ℕ) → nat_eq x 0xff ≡ false → stuffed (x ∷ xs) ≡ x ∷ stuffed xs
stuffed_plain x xs h = rw h refl

-- The loop at the writer's bytes for `xs`, behind `pre`.
abbrev Unstuffs : List ℕ → ℕ → Type 0
Unstuffs xs fuel =
    (pre rest : List ℕ) (base size offset new_size m : ℕ)
    → length pre ≡ base + offset
    → size ≡ offset + length (stuffed xs)
    → m + length (stuffed xs) ≡ new_size + length xs
    → un_unsync_loop fuel (pre ++ (stuffed xs ++ rest)) base size offset new_size ≡ ok (xs, m)

un_unsync_loop_plain :
    (fuel : ℕ) (x : ℕ) (xs : List ℕ)
    → nat_eq x 0xff ≡ false
    → Unstuffs xs fuel
    → Unstuffs (x ∷ xs) (suc fuel)
unfolding un_unsync_loop read
un_unsync_loop_plain fuel x xs plain ih pre rest base size offset new_size m h s n =
    rw (stuffed_plain x xs plain) (
      ground (
        arith,
        plain,
        ap length (stuffed_plain x xs plain),
        read-behind pre (x ∷ (stuffed xs ++ rest)) (base + offset) 0,
        ih (pre ++ x ∷ []) rest base size (offset + 1) new_size m,
        length-append pre (x ∷ []),
        append_assoc pre (x ∷ []) (stuffed xs ++ rest),
      ))

un_unsync_loop_full :
    (fuel : ℕ) (x : ℕ) (xs : List ℕ)
    → nat_eq x 0xff ≡ true
    → Unstuffs xs fuel
    → Unstuffs (x ∷ xs) (suc fuel)
unfolding un_unsync_loop read
un_unsync_loop_full fuel x xs full ih pre rest base size offset new_size m h s n =
    rw (stuffed_full x xs full) (
      ground (
        arith,
        full,
        ap length (stuffed_full x xs full),
        read-behind pre (0xff ∷ 0 ∷ (stuffed xs ++ rest)) (base + offset) 0,
        read-behind pre (0xff ∷ 0 ∷ (stuffed xs ++ rest)) (base + (offset + 1)) 1,
        ih (pre ++ 0xff ∷ 0 ∷ []) rest base size (offset + 2) (new_size - 1) m,
        length-append pre (0xff ∷ 0 ∷ []),
        length-stuffed xs,
        append_assoc pre (0xff ∷ 0 ∷ []) (stuffed xs ++ rest),
      ))

un_unsync_loop-stuffed : (fuel : ℕ) (xs : List ℕ) → length xs ≤ fuel → Unstuffs xs fuel
unfolding un_unsync_loop
un_unsync_loop-stuffed zero [] f pre rest base size offset new_size m h s n =
    ground (arith, h, s, n)
un_unsync_loop-stuffed (suc fuel) [] f pre rest base size offset new_size m h s n =
    ground (arith, h, s, n)
un_unsync_loop-stuffed zero (x ∷ xs) f pre rest base size offset new_size m h s n =
    absurd (omega arith)
un_unsync_loop-stuffed (suc fuel) (x ∷ xs) f pre rest base size offset new_size m h s n =
    elim (Bool-cases (nat_eq x 0xff)) [
      | inl full ↦
          un_unsync_loop_full fuel x xs full (un_unsync_loop-stuffed fuel xs (omega arith)) pre rest
            base size offset new_size m h s n
      | inr plain ↦
          un_unsync_loop_plain fuel x xs plain (un_unsync_loop-stuffed fuel xs (omega arith)) pre
            rest base size offset new_size m h s n
    ]

-- un_unsync gives back what a writer stuffed with a zero byte behind each byte 0xFF, whatever stands
-- before and behind it in the buffer.
pub un_unsync-stuffed :
    (pre xs rest : List ℕ)
    → un_unsync (pre ++ (stuffed xs ++ rest)) (length pre) (length (stuffed xs)) ≡ ok xs
unfolding un_unsync
un_unsync-stuffed pre xs rest =
    rw
      (un_unsync_loop-stuffed (length (stuffed xs)) xs (length-stuffed xs) pre rest (length pre)
        (length (stuffed xs)) 0 (length (stuffed xs)) (length xs) (omega arith) (omega arith)
        (omega arith))
      (ap ok (length-take xs))
