-- ===== src/TaskPool/Limit.antt =====
-- The limit of the task pool, and its notification.
use tracker_miners.Base.{
  ◌%◌, ℕ, zero, suc, ◌+◌, ◌-◌, ◌<◌, ◌≡◌, refl, some, List, [], ◌∷◌, Eq, arith, nat_eq, length,
  length-append, Option-cases, inl, inr,
}
use tracker_miners.TaskPool.{
  Task, TaskPool, Call, adds, removes, sets_limit, guint_size, rotate_last, remove_fast, xor,
  limit_reached, set_limit, add, remove, step,
}

pub length-rotate_last : (xs : List ℕ) → length (rotate_last xs) ≡ length xs
unfolding rotate_last
length-rotate_last [] = refl
length-rotate_last (x ∷ xs) = ground (arith, length-rotate_last xs)

pub length-remove_fast :
    (xs : List ℕ) (t : ℕ) {ys : List ℕ} → remove_fast xs t ≡ some ys → length xs ≡ length ys + 1
unfolding remove_fast
length-remove_fast [] t h = cc
length-remove_fast (x ∷ xs) t h = elim (Option-cases (remove_fast xs t)) [
  | inl e ↦ ground (arith, length-rotate_last xs)
  | inr (zs, e) ↦ ground (arith, length-rotate_last xs, length-remove_fast xs t e)
]

-- `priv->limit - 1` in a guint
pred_wrapped :
    (n limit : ℕ)
    → n + 1 < guint_size
    → limit < guint_size
    → nat_eq n ((limit + guint_size - 1) % guint_size) ≡ nat_eq (n + 1) limit
pred_wrapped n zero h k = ground arith
pred_wrapped n (suc l) h k = ground arith

module _ {File A : Type 0} ⦃e : Eq File⦄ (heap : ℕ → Task File A) where
  add-notified :
      (p : TaskPool File) (t : ℕ)
      → (add heap p t).notified ≡ xor (limit_reached p) (limit_reached (add heap p t).pool)
  unfolding add limit_reached xor
  add-notified p t = ground (arith, length-append p.tasks (t ∷ []))

  remove-notified :
      (p : TaskPool File) (t : ℕ)
      → length p.tasks < guint_size
      → p.limit < guint_size
      → (remove heap p t).notified ≡ xor (limit_reached p) (limit_reached (remove heap p t).pool)
  unfolding remove limit_reached xor
  remove-notified p t h k = elim (Option-cases (remove_fast p.tasks t)) [
    | inl e ↦ ground (arith, e)
    | inr (ys, e) ↦
        ground (arith, e, length-remove_fast p.tasks t e, pred_wrapped (length ys) p.limit)
  ]

  -- While the pool's size and its limit are values of a `guint`, each call emits
  -- `notify::limit-reached` exactly when it changes whether the limit is reached.
  pub step-notified :
      (p : TaskPool File) (c : Call)
      → length p.tasks < guint_size
      → p.limit < guint_size
      → (step heap p c).notified ≡ xor (limit_reached p) (limit_reached (step heap p c).pool)
  unfolding step
  step-notified p (adds t) h k = add-notified p t
  step-notified p (removes t) h k = remove-notified p t h k
  step-notified p (sets_limit n) h k = unfold set_limit in refl
