-- ===== src/SparqlBuffer/Shape.antt =====
-- How the pool, the array of tasks, the batch and the counter of updates of the buffer belong together.
use Prim.Native.String.{String}
use tracker_miners.Base.{
  ℕ, ◌≡◌, refl, sym, ◌∙◌, ap, Option, none, some, List, [], ◌∷◌, Eq, arith, ltb, Bool-cases, inl,
  inr, length, length-append, is_some,
}
use tracker_miners.TaskPool.{Task}
use tracker_miners.SparqlBuffer.{
  UriOps, SparqlTaskData, UpdateBatchData, SparqlBuffer, default_graph, list_of, Call, deletes,
  deletes_content, moves, moves_content, logs_file, updates_attributes, logs_folder, flushes,
  answers, new, log_file, remove_tasks, start_update, flush_tasks, flush, batch_execute_cb, step,
  run,
}
use tracker_miners.SparqlBuffer.Sound.{
  IsSound, IsLogged, remove_tasks-empty, remove_tasks-IsIndexed, new-IsSound, add_to_batch-IsSound,
  push-IsLogged, log_statement-IsLogged, push_content-IsLogged, log_folder-IsLogged,
  log_attributes_update-IsLogged,
}

module _ {File R : Type 0} ⦃e : Eq File⦄ where
  -- A sound buffer whose batch and whose array of tasks are there together or not at all.
  pub record IsConsistent (b : SparqlBuffer File R) : Type 0 where
    pub sound : IsSound b
    pub paired : is_some b.batch ≡ is_some b.tasks

  logged-IsConsistent : {b : SparqlBuffer File R} → IsLogged b → IsConsistent b
  logged-IsConsistent v = record { sound = v.sound; paired = v.has_batch ∙ sym v.has_tasks }

  new-IsConsistent :
      (heap : ℕ → Task File (SparqlTaskData R)) (limit : ℕ) → IsConsistent (new heap limit)
  new-IsConsistent heap limit = record {
    sound = new-IsSound heap limit;
    paired = unfold new in refl;
  }

  pub start_update-IsConsistent :
      (b : SparqlBuffer File R) (ts : List ℕ)
      → b.tasks ≡ some ts
      → b.n_updates ≡ 0
      → IsSound b
      → IsConsistent (start_update b ts)
  unfolding start_update
  start_update-IsConsistent b ts h z v =
      let u : UpdateBatchData R = record { tasks = ts; batch = list_of b.batch } in
      let emptied : (remove_tasks b.heap b.pool ts).tasks ≡ [] =
        remove_tasks-empty b.heap b.pool ts (λ t. rw (v.pooled, h)) in
      record {
        sound = record {
          pooled = emptied;
          indexed = remove_tasks-IsIndexed b.heap b.pool ts v.indexed;
          allocated = λ t o. ground (arith, emptied);
          nonempty = λ x. cc;
          covered = λ x. cc;
          counted = omega (arith, v.counted, length-append b.in_flight (u ∷ []));
          one_update = omega arith;
        };
        paired = refl;
      }

  flush_tasks-IsConsistent :
      (b : SparqlBuffer File R) (ts : Option (List ℕ))
      → b.tasks ≡ ts
      → b.n_updates ≡ 0
      → IsConsistent b
      → IsConsistent (flush_tasks b ts).0
  unfolding flush_tasks
  flush_tasks-IsConsistent b none h z v = v
  flush_tasks-IsConsistent b (some []) h z v = v
  flush_tasks-IsConsistent b (some (t ∷ ts)) h z v =
      start_update-IsConsistent b (t ∷ ts) h z v.sound

  flush-IsConsistent : (b : SparqlBuffer File R) → IsConsistent b → IsConsistent (flush b).0
  unfolding flush
  flush-IsConsistent b v = elim (Bool-cases (ltb 0 b.n_updates)) [
    | inl y ↦ rw y v
    | inr n ↦ rw n (flush_tasks-IsConsistent b b.tasks refl (ground (arith, n)) v)
  ]

  batch_execute_cb-IsConsistent :
      (b : SparqlBuffer File R) (us : List (UpdateBatchData R))
      → b.in_flight ≡ us
      → IsConsistent b
      → IsConsistent (batch_execute_cb b).0
  unfolding batch_execute_cb
  batch_execute_cb-IsConsistent b [] h v = rw (h, batch_execute_cb) v
  batch_execute_cb-IsConsistent b (u ∷ us) h v =
      rw (h, batch_execute_cb)
        (record {
          sound = record {
            pooled = v.sound.pooled;
            indexed = v.sound.indexed;
            allocated = v.sound.allocated;
            nonempty = v.sound.nonempty;
            covered = v.sound.covered;
            counted = omega (arith, v.sound.counted, ap length h);
            one_update = omega (arith, v.sound.one_update);
          };
          paired = v.paired;
        })

module _ {File R : Type 0} ⦃e : Eq File⦄ (uris : UriOps File) where
  log_file-IsLogged :
      (b : SparqlBuffer File R) (f : File) (c : Option String) (r : R) (x : Option R)
      → IsSound b
      → IsLogged (log_file uris b f c r x)
  unfolding log_file
  log_file-IsLogged b f c r x v =
      push_content-IsLogged _ f c x (push-IsLogged _ f default_graph r (add_to_batch-IsSound b _ v))

  step-IsConsistent :
      (b : SparqlBuffer File R) (c : Call File R) → IsConsistent b → IsConsistent (step uris b c)
  unfolding step
  step-IsConsistent b (deletes f) v = logged-IsConsistent (log_statement-IsLogged b _ _ f v.sound)
  step-IsConsistent b (deletes_content f) v =
      logged-IsConsistent (log_statement-IsLogged b _ _ f v.sound)
  step-IsConsistent b (moves f g s) v = logged-IsConsistent (log_statement-IsLogged b _ _ g v.sound)
  step-IsConsistent b (moves_content f g) v =
      logged-IsConsistent (log_statement-IsLogged b _ _ g v.sound)
  step-IsConsistent b (logs_file f c r x) v =
      logged-IsConsistent (log_file-IsLogged b f c r x v.sound)
  step-IsConsistent b (updates_attributes f c r x) v =
      logged-IsConsistent (log_attributes_update-IsLogged b f c r x v.sound)
  step-IsConsistent b (logs_folder f root r x) v =
      logged-IsConsistent (log_folder-IsLogged b f root r x v.sound)
  step-IsConsistent b flushes v = flush-IsConsistent b v
  step-IsConsistent b answers v = batch_execute_cb-IsConsistent b b.in_flight refl v

  run-IsConsistent :
      (b : SparqlBuffer File R) (cs : List (Call File R))
      → IsConsistent b
      → IsConsistent (run uris b cs)
  unfolding run
  run-IsConsistent b [] v = v
  run-IsConsistent b (c ∷ cs) v = run-IsConsistent (step uris b c) cs (step-IsConsistent b c v)

  -- After any calls on a new buffer, the pool holds the tasks of the array in the same order, each
  -- indexed under its file; the batch is there exactly when the array is, and no array is empty; and
  -- `n_updates` counts the updates in flight, of which there is one at most.
  pub run-new-IsConsistent :
      (heap : ℕ → Task File (SparqlTaskData R)) (limit : ℕ) (cs : List (Call File R))
      → IsConsistent (run uris (new heap limit) cs)
  run-new-IsConsistent heap limit cs = run-IsConsistent _ cs (new-IsConsistent heap limit)
