-- ===== src/SparqlBuffer/Sound.antt =====
-- The state of the buffer between any two changes, inside one call too.
use Prim.Native.String.{String}
use tracker_miners.Base.{
  ℕ, ◌≤◌, ◌<◌, ◌≡◌, ◌≢◌, refl, ap, Bool, true, false, Option, none, some, List, [], ◌∷◌, ◌++◌, Eq,
  arith, length, is_some,
}
use tracker_miners.TaskPool.{Task, TaskPool, add, remove}
use tracker_miners.TaskPool.Index.{
  occurs, occurs-append, occurs-remove_fast, IsIndexed, IsIndexed-heap, init-IsIndexed,
  add-IsIndexed, remove-IsIndexed, tasks-remove,
}
use tracker_miners.SparqlBuffer.{
  SparqlTaskData, BatchItem, SparqlBuffer, special_graphs, default_graph, list_of, new,
  add_to_batch, task_new, push_task, push, push_content, push_graphs, log_statement, log_folder,
  log_attributes_update, remove_tasks, add_resource, add_statement, Statement, stmt, resource,
}

empty_of_occurs : (ts : List ℕ) → ((t : ℕ) → occurs t ts ≡ 0) → ts ≡ []
empty_of_occurs [] h = refl
empty_of_occurs (t ∷ ts) h = ground (arith, h t)

snoc-ne-nil : (l : List ℕ) (t : ℕ) → some (l ++ t ∷ []) ≢ some []
snoc-ne-nil [] t h = cc
snoc-ne-nil (x ∷ xs) t h = cc

module _ {File R : Type 0} ⦃e : Eq File⦄ (heap : ℕ → Task File (SparqlTaskData R)) where
  -- To remove all that a pool holds leaves it empty, whatever the order.
  pub remove_tasks-empty :
      (p : TaskPool File) (ts : List ℕ)
      → ((t : ℕ) → occurs t p.tasks ≡ occurs t ts)
      → (remove_tasks heap p ts).tasks ≡ []
  unfolding remove_tasks
  remove_tasks-empty p [] h = empty_of_occurs p.tasks h
  remove_tasks-empty p (t ∷ ts) h =
      remove_tasks-empty (remove heap p t).pool ts
        λ u. rw tasks-remove (ground (arith, h u, occurs-remove_fast u t p.tasks))

  pub remove_tasks-IsIndexed :
      (p : TaskPool File) (ts : List ℕ) → IsIndexed heap p → IsIndexed heap (remove_tasks heap p ts)
  unfolding remove_tasks
  remove_tasks-IsIndexed p [] v = v
  remove_tasks-IsIndexed p (t ∷ ts) v =
      remove_tasks-IsIndexed (remove heap p t).pool ts (remove-IsIndexed heap p t v)

module _ {File R : Type 0} ⦃e : Eq File⦄ where
  -- The pool holds the tasks of the array, each under its file; what has tasks has a batch; and the
  -- counter counts the updates in flight, one at most.
  pub record IsSound (b : SparqlBuffer File R) : Type 0 where
    pub pooled : b.pool.tasks ≡ list_of b.tasks
    pub indexed : IsIndexed b.heap b.pool
    pub allocated : (t : ℕ) → 0 < occurs t b.pool.tasks → t < b.next_task
    pub nonempty : b.tasks ≢ some []
    pub covered : is_some b.tasks ≡ true → is_some b.batch ≡ true
    pub counted : length b.in_flight ≡ b.n_updates
    pub one_update : b.n_updates ≤ 1

  pub new-IsSound : (heap : ℕ → Task File (SparqlTaskData R)) (limit : ℕ) → IsSound (new heap limit)
  unfolding new
  new-IsSound heap limit = record {
    pooled = refl;
    indexed =
        let v = init-IsIndexed heap in record { tasks_of = v.tasks_of; none_empty = v.none_empty };
    allocated = λ t h. absurd (omega arith);
    nonempty = λ h. cc;
    covered = λ h. cc;
    counted = refl;
    one_update = omega arith;
  }

  pub add_to_batch-IsSound :
      (b : SparqlBuffer File R) (x : BatchItem R) → IsSound b → IsSound (add_to_batch b x)
  unfolding add_to_batch
  add_to_batch-IsSound b x v = record {
    pooled = v.pooled;
    indexed = v.indexed;
    allocated = v.allocated;
    nonempty = v.nonempty;
    covered = λ _. refl;
    counted = v.counted;
    one_update = v.one_update;
  }

  push_task-IsSound :
      (b : SparqlBuffer File R) (f : File) (d : SparqlTaskData R)
      → is_some b.batch ≡ true
      → IsSound b
      → IsSound (push_task b f d)
  unfolding push_task
  push_task-IsSound b f d h v =
      let b' = task_new b f d in
      let indexed : IsIndexed b'.heap b.pool =
        IsIndexed-heap b.heap b'.heap b.pool (λ t o. ground (arith, v.allocated t o)) v.indexed in
      record {
        pooled = unfold add in ap (λ (l : List ℕ). l ++ b.next_task ∷ []) v.pooled;
        indexed = add-IsIndexed b'.heap b.pool b.next_task indexed;
        allocated =
            unfold add in
            λ t o. ground (arith, v.allocated t, occurs-append t b.pool.tasks (b.next_task ∷ []));
        nonempty = snoc-ne-nil (list_of b.tasks) b.next_task;
        covered = λ _. h;
        counted = v.counted;
        one_update = v.one_update;
      }

  -- a state between two items of one call
  pub record IsLogged (b : SparqlBuffer File R) : Type 0 where
    pub sound : IsSound b
    pub has_tasks : is_some b.tasks ≡ true
    pub has_batch : is_some b.batch ≡ true

  pub push-IsLogged :
      (b : SparqlBuffer File R) (f : File) (g : String) (r : R)
      → IsSound b
      → IsLogged (push b f g r)
  unfolding push
  push-IsLogged b f g r v = record {
    sound =
        push_task-IsSound (add_to_batch b (add_resource g r)) f (resource g r) refl
          (add_to_batch-IsSound b _ v);
    has_tasks = refl;
    has_batch = refl;
  }

  pub log_statement-IsLogged :
      (b : SparqlBuffer File R) (s : Statement) (args : List (String × String)) (f : File)
      → IsSound b
      → IsLogged (log_statement b s args f)
  unfolding log_statement
  log_statement-IsLogged b s args f v = record {
    sound =
        push_task-IsSound (add_to_batch b (add_statement s args)) f (stmt s) refl
          (add_to_batch-IsSound b _ v);
    has_tasks = refl;
    has_batch = refl;
  }

  push_content-IsSound :
      (b : SparqlBuffer File R) (f : File) (c : Option String) (x : Option R)
      → IsSound b
      → IsSound (push_content b f c x)
  unfolding push_content
  push_content-IsSound b f (some g) (some r) v = (push-IsLogged b f g r v).sound
  push_content-IsSound b f (some g) none v = v
  push_content-IsSound b f none x v = v

  pub push_content-IsLogged :
      (b : SparqlBuffer File R) (f : File) (c : Option String) (x : Option R)
      → IsLogged b
      → IsLogged (push_content b f c x)
  unfolding push_content
  push_content-IsLogged b f (some g) (some r) v = push-IsLogged b f g r v.sound
  push_content-IsLogged b f (some g) none v = v
  push_content-IsLogged b f none x v = v

  push_graphs-IsSound :
      (b : SparqlBuffer File R) (f : File) (gs : List String) (r : R)
      → IsSound b
      → IsSound (push_graphs b f gs r)
  unfolding push_graphs
  push_graphs-IsSound b f [] r v = v
  push_graphs-IsSound b f (g ∷ gs) r v =
      push_graphs-IsSound (push b f g r) f gs r (push-IsLogged b f g r v).sound

  pub log_folder-IsLogged :
      (b : SparqlBuffer File R) (f : File) (root : Bool) (r x : R)
      → IsSound b
      → IsLogged (log_folder b f root r x)
  unfolding log_folder
  log_folder-IsLogged b f true r x v =
      push-IsLogged _ f default_graph x
        (push-IsLogged _ f default_graph r (push_graphs-IsSound b f special_graphs x v)).sound
  log_folder-IsLogged b f false r x v =
      push-IsLogged _ f default_graph x (push-IsLogged b f default_graph r v).sound

  pub log_attributes_update-IsLogged :
      (b : SparqlBuffer File R) (f : File) (c : Option String) (r : R) (x : Option R)
      → IsSound b
      → IsLogged (log_attributes_update b f c r x)
  unfolding log_attributes_update
  log_attributes_update-IsLogged b f c r x v =
      push-IsLogged _ f default_graph r (push_content-IsSound b f c x v)
