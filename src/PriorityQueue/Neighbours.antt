-- ===== src/PriorityQueue/Neighbours.antt =====
-- What one link's removal does to the groups, and the link's neighbours in the queue.
use tracker_miners.Base.{
  ℕ, ◌≤◌, ◌≡◌, refl, ◌∙◌, sym, Bool, true, false, some, List, [], ◌∷◌, ◌++◌, arith, nat_eq,
  if◌then◌else◌,
}
use tracker_miners.Base.Int.{ℤ}
use tracker_miners.PriorityQueue.{Node, next_of, prev_of, delete_link}
use tracker_miners.PriorityQueue.Groups.{Group, last_from, nodes, links}
use tracker_miners.PriorityQueue.Pop.{shorten}

module _ {A : Type 0} where
  pub has_link : ℕ → List (Node A) → Bool
  has_link p [] = false
  has_link p (x ∷ xs) = if nat_eq x.link p then true else has_link p xs

  -- the groups without the link; a group that loses its only element goes
  unfoldable pub remove_from_groups : ℕ → List (Group A) → List (Group A)
  unfolding has_link delete_link
  remove_from_groups p [] = []
  remove_from_groups p (g ∷ gs) =
      let rest = remove_from_groups p gs in
      if nat_eq g.first.link p
      then shorten g.priority g.others gs
      else if has_link p g.others
      then record g { others = delete_link p g.others } ∷ gs
      else g ∷ rest

  pub has_link-links : (p : ℕ) (xs : List (Node A)) → has_link p xs ≡ true → 1 ≤ links p xs
  unfolding has_link
  has_link-links p [] h = cc
  has_link-links p (x ∷ xs) h = ground (arith, has_link-links p xs)

  pub not_has_link-links : (p : ℕ) (xs : List (Node A)) → has_link p xs ≡ false → links p xs ≡ 0
  unfolding has_link
  not_has_link-links p [] h = refl
  not_has_link-links p (x ∷ xs) h = ground (arith, not_has_link-links p xs)

  delete_link-append_here :
      (p : ℕ) (xs ys : List (Node A))
      → has_link p xs ≡ true
      → delete_link p (xs ++ ys) ≡ delete_link p xs ++ ys
  unfolding delete_link has_link
  delete_link-append_here p [] ys h = cc
  delete_link-append_here p (x ∷ xs) ys h = ground (arith, delete_link-append_here p xs ys)

  delete_link-append_there :
      (p : ℕ) (xs ys : List (Node A))
      → has_link p xs ≡ false
      → delete_link p (xs ++ ys) ≡ xs ++ delete_link p ys
  unfolding delete_link has_link
  delete_link-append_there p [] ys h = refl
  delete_link-append_there p (x ∷ xs) ys h = ground (arith, delete_link-append_there p xs ys)

  pub nodes-shorten :
      (q : ℤ) (ys : List (Node A)) (gs : List (Group A)) → nodes (shorten q ys gs) ≡ ys ++ nodes gs
  nodes-shorten q [] gs = refl
  nodes-shorten q (y ∷ ys) gs = refl

  -- the queue loses the link where the groups do
  pub delete_link-nodes :
      (p : ℕ) (gs : List (Group A)) → delete_link p (nodes gs) ≡ nodes (remove_from_groups p gs)
  unfolding remove_from_groups
  delete_link-nodes p [] = refl
  delete_link-nodes p (g ∷ gs) = ground (
    arith,
    nodes-shorten g.priority g.others gs,
    delete_link-append_here p g.others (nodes gs),
    delete_link-append_there p g.others (nodes gs),
    delete_link-nodes p gs,
  )

  pub last_absent :
      (p : ℕ) (x : Node A) (ys : List (Node A))
      → links p (x ∷ ys) ≡ 0
      → nat_eq (last_from x ys).link p ≡ false
  last_absent p x [] h = ground arith
  last_absent p x (y ∷ ys) h = last_absent p y ys (omega arith)

  pub last_present :
      (p : ℕ) (x : Node A) (ys : List (Node A))
      → nat_eq (last_from x ys).link p ≡ true
      → 1 ≤ links p (x ∷ ys)
  last_present p x [] h = ground arith
  last_present p x (y ∷ ys) h = omega (arith, last_present p y ys h)

  pub last_from-delete_link :
      (p : ℕ) (x : Node A) (ys : List (Node A))
      → nat_eq (last_from x ys).link p ≡ false
      → last_from x (delete_link p ys) ≡ last_from x ys
  unfolding delete_link
  last_from-delete_link p x [] h = refl
  last_from-delete_link p x (y ∷ []) h = ground arith
  last_from-delete_link p x (y ∷ z ∷ zs) h = ground (arith, last_from-delete_link p y (z ∷ zs))

  pub next_of-append :
      (p : ℕ) (xs : List (Node A)) (y : Node A) (ys : List (Node A))
      → links p xs ≡ 0
      → next_of p (xs ++ y ∷ ys) ≡ next_of p (y ∷ ys)
  unfolding next_of
  next_of-append p [] y ys h = refl
  next_of-append p (x ∷ []) y ys h = ground arith
  next_of-append p (x ∷ w ∷ ws) y ys h = ground (arith, next_of-append p (w ∷ ws) y ys)

  pub prev_of-append :
      (p : ℕ) (xs : List (Node A)) (y : Node A) (ys : List (Node A))
      → links p xs ≡ 0
      → nat_eq y.link p ≡ false
      → prev_of p (xs ++ y ∷ ys) ≡ prev_of p (y ∷ ys)
  unfolding prev_of
  prev_of-append p [] y ys h k = refl
  prev_of-append p (x ∷ []) y ys h k = ground arith
  prev_of-append p (x ∷ w ∷ ws) y ys h k = ground (arith, prev_of-append p (w ∷ ws) y ys)

  -- the link before the last of a group is the last of what is left
  pub prev_of-last :
      (p : ℕ) (x : Node A) (ys zs : List (Node A))
      → nat_eq x.link p ≡ false
      → links p (x ∷ ys) ≤ 1
      → nat_eq (last_from x ys).link p ≡ true
      → prev_of p (x ∷ (ys ++ zs)) ≡ some (last_from x (delete_link p ys)).link
  unfolding prev_of delete_link
  prev_of-last p x [] zs h d e = cc (sym h ∙ e)
  prev_of-last p x (y ∷ []) zs h d e = ground arith
  prev_of-last p x (y ∷ z ∷ ws) zs h d e =
      let other : nat_eq y.link p ≡ false = ground (arith, last_present p z ws e) in
      ground (arith, other, prev_of-last p y (z ∷ ws) zs other)
