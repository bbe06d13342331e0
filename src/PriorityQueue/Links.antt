-- ===== src/PriorityQueue/Links.antt =====
-- The pointer operations on a queue, at a link whose neighbours are written out.

use tracker_miners.Base.{
  ℕ, ◌≤◌, ◌≡◌, refl, ap, ◌∙◌, false, some, List, [], ◌∷◌, ◌++◌, arith, nat_eq, nat_eq_refl,
  count-append, append_assoc,
}
use tracker_miners.PriorityQueue.{
  Node, is_tail, next_of, link_before, queue_insert_before_link, queue_insert_after_link,
}
use tracker_miners.PriorityQueue.Groups.{links}

module _ {A : Type 0} where
  link_before-split :
      (xs : List (Node A)) (y : Node A) (ys : List (Node A)) (n : Node A)
      → links y.link xs ≡ 0
      → link_before (xs ++ y ∷ ys) y.link n ≡ some (xs ++ n ∷ y ∷ ys)
  unfolding link_before
  link_before-split [] y ys n h = ground arith
  link_before-split (x ∷ xs) y ys n h = ground (arith, link_before-split xs y ys n)

  -- An insertion before a link puts the new one there.
  pub insert_before-split :
      (xs : List (Node A)) (y : Node A) (ys : List (Node A)) (n : Node A)
      → links y.link xs ≡ 0
      → queue_insert_before_link (xs ++ y ∷ ys) y.link n ≡ some (xs ++ n ∷ y ∷ ys)
  unfolding queue_insert_before_link link_before
  insert_before-split [] y ys n h = ground arith
  insert_before-split (x ∷ xs) y ys n h = ground (arith, link_before-split xs y ys n)

  is_tail-append :
      (p : ℕ) (xs : List (Node A)) (z : Node A) (zs : List (Node A))
      → is_tail p (xs ++ z ∷ zs) ≡ is_tail p (z ∷ zs)
  is_tail-append p [] z zs = refl
  is_tail-append p (x ∷ []) z zs = refl
  is_tail-append p (x ∷ y ∷ ys) z zs = is_tail-append p (y ∷ ys) z zs

  is_tail_absent :
      (p : ℕ) (z : Node A) (zs : List (Node A)) → links p (z ∷ zs) ≡ 0 → is_tail p (z ∷ zs) ≡ false
  is_tail_absent p z [] h = ground arith
  is_tail_absent p z (y ∷ ys) h = is_tail_absent p y ys (omega arith)

  pub next_of-split :
      (xs : List (Node A)) (y z : Node A) (zs : List (Node A))
      → links y.link xs ≡ 0
      → next_of y.link (xs ++ y ∷ z ∷ zs) ≡ some z.link
  unfolding next_of
  next_of-split [] y z zs h = ground arith
  next_of-split (x ∷ []) y z zs h = ground arith
  next_of-split (x ∷ w ∷ ws) y z zs h = ground (arith, next_of-split (w ∷ ws) y z zs)

  -- So does an insertion after it.
  pub insert_after-split :
      (xs : List (Node A)) (y : Node A) (ys : List (Node A)) (n : Node A)
      → ((p : ℕ) → links p (xs ++ y ∷ ys) ≤ 1)
      → queue_insert_after_link (xs ++ y ∷ ys) y.link n ≡ some (xs ++ y ∷ n ∷ ys)
  unfolding queue_insert_after_link
  insert_after-split xs y [] n h =
      rw (is_tail-append, nat_eq_refl) (ap some (append_assoc xs (y ∷ []) (n ∷ [])))
  insert_after-split xs y (z ∷ zs) n h =
      rw (not_tail, next_of-split xs y z zs before_y)
        (rw (← append_assoc xs (y ∷ []) (z ∷ zs)) (
          insert_before-split (xs ++ y ∷ []) z zs n before_z
          ∙ ap some (append_assoc xs (y ∷ []) (n ∷ z ∷ zs))))
    where
      at_y : (p : ℕ) → p ≡ y.link → (links p xs ≡ 0) × (links p (z ∷ zs) ≡ 0)
      at_y p e = ground (arith, e, h p, count-append (λ x. nat_eq x.link p) xs (y ∷ z ∷ zs))

      before_y : links y.link xs ≡ 0
      before_y = (at_y y.link refl).0

      not_tail : is_tail y.link (xs ++ y ∷ z ∷ zs) ≡ false
      not_tail =
          is_tail-append y.link xs y (z ∷ zs) ∙ is_tail_absent y.link z zs (at_y y.link refl).1

      at_z : (p : ℕ) → p ≡ z.link → links p (xs ++ y ∷ []) ≡ 0
      at_z p e = ground (
        arith,
        e,
        h p,
        count-append (λ x. nat_eq x.link p) xs (y ∷ z ∷ zs),
        count-append (λ x. nat_eq x.link p) xs (y ∷ []),
      )

      before_z : links z.link (xs ++ y ∷ []) ≡ 0
      before_z = at_z z.link refl
