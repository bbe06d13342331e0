-- ===== src/Lru/Runs.antt =====
-- Any calls on a new cache, against the same calls on the list of its elements.
use tracker_miners.Base.Options.{some_inj, ◌>>=◌}
use tracker_miners.Base.{
  ℕ, ◌+◌, ◌≤◌, ◌≡◌, refl, ap, sym, subst, ◌∙◌, Bool, none, some, inl, inr, Option, Option-cases,
  List, [], ◌∷◌, arith, if◌then◌else◌, Eq, length, Table, lookup, remove_key, remove_keys, is_some,
}
use tracker_miners.Lru.{Lru, new, find, add, remove, remove_foreach}
use tracker_miners.Lru.Recent.{pairs}
use tracker_miners.Lru.Refines.{
  drop_last, promote, add_recent, find-IsCache, remove-IsCache, length-pairs,
}
use tracker_miners.Lru.Cache.{IsCache}
use tracker_miners.Lru.Adds.{add-IsCache}
use tracker_miners.Lru.Foreach.{remove_foreach-IsCache}

-- `gets` is the use of the cache in tracker_miner_fs_get_identifier: an element that is looked for and not
-- found is added, with what is computed for it. The others are the functions of the cache.
pub data Call (E D : Type 0) : Type 0 where
  gets adds : E → D → Call E D
  finds removes : E → Call E D
  removes_foreach : (E → Bool) → Call E D

module _ {E D : Type 0} ⦃keys : Eq E⦄ where
  abbrev pub get_found : E → D → Option D × Lru E D → Option D × Lru E D
  get_found e d (some v, lru) = (some v, lru)
  get_found e d (none, lru) = (some d, add e d lru)

  unfoldable pub step : Call E D → Lru E D → Option (Option D × Lru E D)
  step (gets e d) lru = find e lru >>= λ r. some (get_found e d r)
  step (adds e d) lru = some (none, add e d lru)
  step (finds e) lru = find e lru
  step (removes e) lru = remove e lru >>= λ r. some (none, r)
  step (removes_foreach test) lru = some (none, remove_foreach test lru)

  unfoldable pub run : List (Call E D) → Lru E D → Option (List (Option D) × Lru E D)
  run [] lru = some ([], lru)
  run (c ∷ cs) lru =
      step c lru >>= λ (answer, r). run cs r >>= λ (answers, final). some (answer ∷ answers, final)

  -- the calls on the list, of at most `max` elements
  abbrev pub get_recent : ℕ → E → D → Option D → Table E D → Option D × Table E D
  get_recent max e d none t = (some d, add_recent max e d t)
  get_recent max e d (some v) t = (some v, promote e (some v) t)

  abbrev pub step_recent : ℕ → Call E D → Table E D → Option D × Table E D
  step_recent max (gets e d) t = get_recent max e d (lookup e t) t
  step_recent max (adds e d) t = (none, add_recent max e d t)
  step_recent max (finds e) t = (lookup e t, promote e (lookup e t) t)
  step_recent max (removes e) t = (none, remove_key e t)
  step_recent max (removes_foreach test) t = (none, remove_keys test t)

  abbrev pub run_recent : ℕ → List (Call E D) → Table E D → List (Option D) × Table E D
  run_recent max [] t = ([], t)
  run_recent max (c ∷ cs) t =
      let rest = run_recent max cs (step_recent max c t).1 in
      ((step_recent max c t).0 ∷ rest.0, rest.1)

  -- what is added by tracker_lru_add alone is not in the list
  abbrev pub IsAllowed : Call E D → Table E D → Type 0
  IsAllowed (adds e d) t = lookup e t ≡ none
  IsAllowed _ t = Unit {0}

  abbrev pub AllAllowed : ℕ → List (Call E D) → Table E D → Type 0
  AllAllowed max [] t = Unit {0}
  AllAllowed max (c ∷ cs) t = IsAllowed c t × AllAllowed max cs (step_recent max c t).1

  abbrev Steps : Call E D → Lru E D → Type 0
  Steps c lru =
      (r : Lru E D) × (step c lru ≡ some ((step_recent lru.max_size c (pairs lru.queue)).0, r))
      × IsCache r
      × (pairs r.queue ≡ (step_recent lru.max_size c (pairs lru.queue)).1)
      × (r.max_size ≡ lru.max_size)

  step-gets :
      (e : E) (d : D) (lru : Lru E D) (o : Option D)
      → lookup e (pairs lru.queue) ≡ o
      → IsCache lru
      → Steps (gets e d) lru
  unfolding step
  step-gets e d lru none h s =
      let (r, out, t, pr, max) = find-IsCache e lru s in
      let same : pairs r.queue ≡ pairs lru.queue = pr ∙ ap (λ o. promote e o (pairs lru.queue)) h in
      let (u, qr, max_added) = add-IsCache e d r (ap (lookup e) same ∙ h) t in
      (
        add e d r,
        ap (λ o. o >>= λ x. some (get_found e d x)) (out ∙ ap (λ o. some (o, r)) h)
            ∙ ap (λ o. some ((get_recent lru.max_size e d o (pairs lru.queue)).0, add e d r))
                (sym h),
        u,
        qr
            ∙ (ap (λ m. add_recent m e d (pairs r.queue)) max
                ∙ (ap (add_recent lru.max_size e d) same
                    ∙ ap (λ o. (get_recent lru.max_size e d o (pairs lru.queue)).1) (sym h))),
        max_added ∙ max,
      )
  step-gets e d lru (some v) h s =
      let (r, out, t, pr, max) = find-IsCache e lru s in
      (
        r,
        ap (λ o. o >>= λ x. some (get_found e d x)) (out ∙ ap (λ o. some (o, r)) h)
            ∙ ap (λ o. some ((get_recent lru.max_size e d o (pairs lru.queue)).0, r)) (sym h),
        t,
        pr
            ∙ (ap (λ o. promote e o (pairs lru.queue)) h
                ∙ ap (λ o. (get_recent lru.max_size e d o (pairs lru.queue)).1) (sym h)),
        max,
      )

  step-Steps :
      (c : Call E D) (lru : Lru E D) → IsAllowed c (pairs lru.queue) → IsCache lru → Steps c lru
  unfolding step
  step-Steps (adds e d) lru a s =
      let (t, pr, max) = add-IsCache e d lru a s in (add e d lru, refl, t, pr, max)
  step-Steps (gets e d) lru a s = step-gets e d lru (lookup e (pairs lru.queue)) refl s
  step-Steps (finds e) lru a s = find-IsCache e lru s
  step-Steps (removes e) lru a s =
      let (r, out, t, pr, max) = remove-IsCache e lru s in
      (r, ap (λ o. o >>= λ x. some (none, x)) out, t, pr, max)
  step-Steps (removes_foreach test) lru a s =
      let (t, pr, max) = remove_foreach-IsCache test lru s in
      (remove_foreach test lru, refl, t, pr, max)

  run-pairs :
      (cs : List (Call E D)) (lru : Lru E D)
      → AllAllowed lru.max_size cs (pairs lru.queue)
      → IsCache lru
      → (r : Lru E D) × (run cs lru ≡ some ((run_recent lru.max_size cs (pairs lru.queue)).0, r))
        × (pairs r.queue ≡ (run_recent lru.max_size cs (pairs lru.queue)).1)
  unfolding run
  run-pairs [] lru a s = (lru, refl, refl)
  run-pairs (c ∷ cs) lru a s =
      let (mid, out, t, pr, max) = step-Steps c lru a.0 s in
      let later =
        subst (λ m. AllAllowed m cs (pairs mid.queue)) (sym max)
          (subst (AllAllowed lru.max_size cs) (sym pr) a.1) in
      let (r, outs, qr) = run-pairs cs mid later t in
      let same =
        ap (λ m. run_recent m cs (pairs mid.queue)) max ∙ ap (run_recent lru.max_size cs) pr in
      (
        r,
        ap (λ o. o >>= λ x. run cs x.1 >>= λ y. some (x.0 ∷ y.0, y.1)) out
            ∙ (ap
                  (λ o.
                    o >>= λ y. some ((step_recent lru.max_size c (pairs lru.queue)).0 ∷ y.0, y.1))
                  outs
                ∙ ap (λ x. some ((step_recent lru.max_size c (pairs lru.queue)).0 ∷ x.0, r)) same),
        qr ∙ ap (λ x. x.1) same,
      )

  new-IsCache : (size : ℕ) → IsCache (new {E = E} {D = D} size)
  new-IsCache size = record {
    linked = λ e. refl;
    table = tt;
    unique = tt;
    distinct = tt;
    fresh = λ l h. refl;
    sized = refl;
  }

  -- Any calls on a new cache, of which none adds an element that is in it, run without following a pointer
  -- to a freed node, and answer as the same calls on the list of elements with their data, the latest
  -- first, of which the last goes when there are more than the cache's size; and the queue is that list
  -- afterwards.
  pub run-new :
      (cs : List (Call E D)) (size : ℕ)
      → AllAllowed size cs []
      → (r : Lru E D) × (run cs (new size) ≡ some ((run_recent size cs []).0, r))
        × (pairs r.queue ≡ (run_recent size cs []).1)
  run-new cs size a = run-pairs cs (new size) a (new-IsCache size)

  length-drop_last : (p : E × D) (t : Table E D) → length (drop_last p t) ≡ length t
  length-drop_last p [] = refl
  length-drop_last p (x ∷ t) = omega (arith, length-drop_last x t)

  length-remove_keys : (test : E → Bool) (t : Table E D) → length (remove_keys test t) ≤ length t
  unfolding remove_keys
  length-remove_keys test [] = omega arith
  length-remove_keys test ((k, v) ∷ t) = ground (arith, length-remove_keys test t)

  length-remove_key :
      (e : E) (t : Table E D)
      → length (remove_key e t) + (if is_some (lookup e t) then 1 else 0) ≤ length t
  unfolding remove_key lookup
  length-remove_key e [] = omega arith
  length-remove_key e ((k, v) ∷ t) = ground (arith, length-remove_key e t)

  promote-bounded :
      (max : ℕ) (e : E) (t : Table E D) (o : Option D)
      → lookup e t ≡ o
      → length t ≤ max
      → length (promote e o t) ≤ max
  promote-bounded max e t none h l = l
  promote-bounded max e t (some v) h l = ground (arith, length-remove_key e t, h)

  step_recent-bounded :
      (max : ℕ) (c : Call E D) (t : Table E D)
      → length t ≤ max
      → length (step_recent max c t).1 ≤ max
  step_recent-bounded max (gets e d) t l = elim (Option-cases (lookup e t)) [
    | inl missing ↦
        subst (λ o. length (get_recent max e d o t).1 ≤ max) (sym missing)
          (ground (arith, length-drop_last (e, d) t))
    | inr (v, found) ↦
        subst (λ o. length (get_recent max e d o t).1 ≤ max) (sym found)
          (promote-bounded max e t (some v) found l)
  ]
  step_recent-bounded max (adds e d) t l = ground (arith, length-drop_last (e, d) t)
  step_recent-bounded max (finds e) t l = promote-bounded max e t (lookup e t) refl l
  step_recent-bounded max (removes e) t l = omega (arith, length-remove_key e t)
  step_recent-bounded max (removes_foreach test) t l = omega (arith, length-remove_keys test t)

  run_recent-bounded :
      (max : ℕ) (cs : List (Call E D)) (t : Table E D)
      → length t ≤ max
      → length (run_recent max cs t).1 ≤ max
  run_recent-bounded max [] t l = l
  run_recent-bounded max (c ∷ cs) t l =
      run_recent-bounded max cs (step_recent max c t).1 (step_recent-bounded max c t l)

  -- After any calls on a new cache of a size, of which none adds an element that is in it, the queue has at
  -- most so many elements.
  pub run-new-bounded :
      (cs : List (Call E D)) (size : ℕ) (answers : List (Option D)) (lru : Lru E D)
      → AllAllowed size cs []
      → run cs (new size) ≡ some (answers, lru)
      → length lru.queue ≤ size
  run-new-bounded cs size answers lru a e =
      let (r, out, pr) = run-new cs size a in
      let same = some_inj ((run_recent size cs []).0, r) (answers, lru) (sym out ∙ e) in
      subst (λ x. length x.1.queue ≤ size) same
        (subst (λ n. n ≤ size) (length-pairs r.queue)
          (subst (λ t. length t ≤ size) (sym pr) (run_recent-bounded size cs [] (omega arith))))
