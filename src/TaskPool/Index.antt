-- ===== src/TaskPool/Index.antt =====
-- The index of the task pool by file.
use tracker_miners.Base.{
  ℕ, ◌+◌, ◌-◌, ◌<◌, ◌≡◌, ◌≢◌, refl, Bool, true, false, Option, none, some, List, [], ◌∷◌, ◌++◌, Eq,
  ◌==◌, arith, Table, nat_eq_iff, ltb, ltb→lt, if◌then◌else◌, lookup, remove_key, table_laws,
  nat_eq, Bool-cases, inl, inr, is_some,
}
use tracker_miners.TaskPool.{
  Task, TaskPool, Call, adds, removes, sets_limit, list_remove, rotate_last, remove_fast,
  list_or_empty, store_tasks, init, get_file, set_limit, add, remove, find, step, run,
}

-- how often a task stands in a list
abbrev pub occurs : ℕ → List ℕ → ℕ
occurs t [] = 0
occurs t (x ∷ xs) = (if nat_eq x t then 1 else 0) + occurs t xs

pub occurs-append : (t : ℕ) (xs ys : List ℕ) → occurs t (xs ++ ys) ≡ occurs t xs + occurs t ys
occurs-append t [] ys = omega arith
occurs-append t (x ∷ xs) ys = omega (arith, occurs-append t xs ys)

occurs-list_remove :
    (t u : ℕ) (xs : List ℕ)
    → occurs t (list_remove xs u) ≡ (if nat_eq u t then occurs t xs - 1 else occurs t xs)
unfolding list_remove
occurs-list_remove t u [] = ground arith
occurs-list_remove t u (x ∷ xs) = ground (arith, occurs-list_remove t u xs)

occurs-rotate_last : (t : ℕ) (xs : List ℕ) → occurs t (rotate_last xs) ≡ occurs t xs
unfolding rotate_last
occurs-rotate_last t [] = refl
occurs-rotate_last t (x ∷ xs) = ground (arith, occurs-rotate_last t xs)

abbrev pub left_after : List ℕ → Option (List ℕ) → List ℕ
left_after xs none = xs
left_after xs (some ys) = ys

pub occurs-remove_fast :
    (t u : ℕ) (xs : List ℕ)
    → occurs t (left_after xs (remove_fast xs u))
      ≡ (if nat_eq u t then occurs t xs - 1 else occurs t xs)
unfolding remove_fast
occurs-remove_fast t u [] = ground arith
occurs-remove_fast t u (x ∷ xs) = ground (arith, occurs-remove_fast t u xs, occurs-rotate_last t xs)

module _ {File A : Type 0} ⦃e : Eq File⦄ (heap : ℕ → Task File A) where
  abbrev pub entries : TaskPool File → File → List ℕ
  entries p f = list_or_empty (lookup f p.tasks_by_file)

  -- Under a file stand its tasks, as often as in the pool, and no file stands there with no task.
  pub record IsIndexed (p : TaskPool File) : Type 0 where
    pub tasks_of :
        (f : File) (t : ℕ)
        → occurs t (entries p f) ≡ (if get_file heap t == f then occurs t p.tasks else 0)
    pub none_empty : (f : File) → lookup f p.tasks_by_file ≢ some []

  pub init-IsIndexed : IsIndexed init
  unfolding lookup
  init-IsIndexed = record { tasks_of = λ f t. ground arith; none_empty = λ f h. cc }

  -- the index after the tasks of one file have become `l`
  lookup-store_tasks :
      (g f : File) (l : List ℕ) (t : Table File (List ℕ))
      → list_or_empty (lookup f (store_tasks g l (remove_key g t)))
        ≡ (if g == f then l else list_or_empty (lookup f t))
  lookup-store_tasks g f [] t = simp table_laws (ground (arith, e.same_iff g f))
  lookup-store_tasks g f (x ∷ xs) t = simp table_laws (ground (arith, e.same_iff g f))

  store_tasks-none_empty :
      (g f : File) (l : List ℕ) (t : Table File (List ℕ))
      → lookup f t ≢ some []
      → lookup f (store_tasks g l (remove_key g t)) ≢ some []
  store_tasks-none_empty g f [] t h = simp table_laws (ground (arith, e.same_iff g f))
  store_tasks-none_empty g f (x ∷ xs) t h = simp table_laws (ground (arith, e.same_iff g f))

  pub add-IsIndexed : (p : TaskPool File) (t : ℕ) → IsIndexed p → IsIndexed (add heap p t).pool
  unfolding add
  add-IsIndexed p t v =
      let g = get_file heap t in
      let l : List ℕ = t ∷ entries p g in
      record {
        tasks_of = λ f u. ground (
          arith,
          lookup-store_tasks g f l p.tasks_by_file,
          v.tasks_of f u,
          occurs-append u p.tasks (t ∷ []),
          e.same_iff g f,
          nat_eq_iff t u,
        );
        none_empty = λ f. store_tasks-none_empty g f l p.tasks_by_file (v.none_empty f);
      }

  pub tasks-remove :
      (p : TaskPool File) (t : ℕ)
      → (remove heap p t).pool.tasks ≡ left_after p.tasks (remove_fast p.tasks t)
  unfolding remove
  tasks-remove p t = ground arith

  tasks_by_file-remove :
      (p : TaskPool File) (t : ℕ)
      → (remove heap p t).pool.tasks_by_file ≡ (
          let g = get_file heap t in
          store_tasks g (list_remove (entries p g) t) (remove_key g p.tasks_by_file))
  unfolding remove
  tasks_by_file-remove p t = ground arith

  pub remove-IsIndexed :
      (p : TaskPool File) (t : ℕ) → IsIndexed p → IsIndexed (remove heap p t).pool
  remove-IsIndexed p t v =
      let g = get_file heap t in
      let l : List ℕ = list_remove (entries p g) t in
      record {
        tasks_of = λ f u.
            rw (tasks-remove, tasks_by_file-remove)
              (ground (
                arith,
                lookup-store_tasks g f l p.tasks_by_file,
                v.tasks_of f u,
                occurs-list_remove u t (entries p g),
                occurs-remove_fast u t p.tasks,
                e.same_iff g f,
                nat_eq_iff t u,
              ));
        none_empty = λ f.
            rw tasks_by_file-remove (store_tasks-none_empty g f l p.tasks_by_file (v.none_empty f));
      }

  step-IsIndexed : (p : TaskPool File) (c : Call) → IsIndexed p → IsIndexed (step heap p c).pool
  unfolding step set_limit
  step-IsIndexed p (adds t) v = add-IsIndexed p t v
  step-IsIndexed p (removes t) v = remove-IsIndexed p t v
  step-IsIndexed p (sets_limit n) v = record { tasks_of = v.tasks_of; none_empty = v.none_empty }

  run-IsIndexed : (p : TaskPool File) (cs : List Call) → IsIndexed p → IsIndexed (run heap p cs)
  unfolding run
  run-IsIndexed p [] v = v
  run-IsIndexed p (c ∷ cs) v = run-IsIndexed (step heap p c).pool cs (step-IsIndexed p c v)

  -- After any calls on a new pool, the index lists under each file the tasks of that file, each as
  -- often as the pool holds it, and lists no file without tasks.
  pub run-init-IsIndexed : (cs : List Call) → IsIndexed (run heap init cs)
  run-init-IsIndexed cs = run-IsIndexed init cs init-IsIndexed

  -- some task of the list has the file
  abbrev pub has_file : List ℕ → File → Bool
  has_file [] f = false
  has_file (t ∷ ts) f = if get_file heap t == f then true else has_file ts f

  has_file-occurs :
      (ts : List ℕ) (f : File)
      → has_file ts f ≡ true
      → (t : ℕ) × (get_file heap t ≡ f) × (0 < occurs t ts)
  has_file-occurs [] f h = cc
  has_file-occurs (t ∷ ts) f h = elim (Bool-cases (get_file heap t == f)) [
    | inl here ↦ (t, (e.same_iff _ f).0 here, ground (arith, nat_eq_iff t t))
    | inr there ↦
        let (u, p, q) = has_file-occurs ts f (ground (arith, there)) in (u, p, omega (arith, q))
  ]

  occurs-has_file : (ts : List ℕ) (t : ℕ) → 0 < occurs t ts → has_file ts (get_file heap t) ≡ true
  occurs-has_file [] t h = absurd (omega arith)
  occurs-has_file (x ∷ xs) t h =
      ground (
        arith,
        occurs-has_file xs t,
        nat_eq_iff x t,
        e.same_iff (get_file heap x) (get_file heap t),
      )

  first_occurs : (x : ℕ) (xs : List ℕ) → 0 < occurs x (x ∷ xs)
  first_occurs x xs = ground (arith, nat_eq_iff x x)

  indexed_some :
      (p : TaskPool File) (f : File) (l : Option (List ℕ))
      → lookup f p.tasks_by_file ≡ l
      → IsIndexed p
      → is_some l ≡ has_file p.tasks f
  indexed_some p f none h v = elim (Bool-cases (has_file p.tasks f)) [
    | inl y ↦
        let (t, q, o) = has_file-occurs p.tasks f y in
        ground (arith, h, v.tasks_of f t, e.same_iff (get_file heap t) f, q, o)
    | inr n ↦ rw n
  ]
  indexed_some p f (some []) h v = absurd (v.none_empty f h)
  indexed_some p f (some (x ∷ xs)) h v = ground (
    arith,
    h,
    v.tasks_of f x,
    e.same_iff (get_file heap x) f,
    first_occurs x xs,
    occurs-has_file p.tasks x,
  )

  -- On an indexed pool, `tracker_task_pool_find` tells whether some task of the pool has the file.
  pub find-has_file : (p : TaskPool File) (f : File) → IsIndexed p → find p f ≡ has_file p.tasks f
  unfolding find
  find-has_file p f v = indexed_some p f (lookup f p.tasks_by_file) refl v

-- What the index says holds on a heap that agrees at the tasks of the pool.
pub IsIndexed-heap :
    {File A : Type 0} ⦃e : Eq File⦄ (g h : ℕ → Task File A) (p : TaskPool File)
    → ((t : ℕ) → 0 < occurs t p.tasks → get_file h t ≡ get_file g t)
    → IsIndexed g p
    → IsIndexed h p
IsIndexed-heap g h p same v = record {
  tasks_of = λ f t. elim (Bool-cases (ltb 0 (occurs t p.tasks))) [
    | inl y ↦ rw (same t (ltb→lt 0 _ y)) (v.tasks_of f t)
    | inr n ↦ ground (arith, n, v.tasks_of f t)
  ];
  none_empty = v.none_empty;
}
