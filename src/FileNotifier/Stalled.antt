-- ===== src/FileNotifier/Stalled.antt =====
-- What a query that fails leaves behind.
use tracker_miners.Base.Options.{◌>>=◌, bind_some}
use tracker_miners.Base.{
  ℕ, suc, ◌+◌, ◌≡◌, refl, ap, ◌∙◌, inl, inr, Bool, true, false, not, ◌&&◌, Option, none, some, List,
  [], ◌∷◌, arith, nat_eq, Bool-cases, if◌then◌else◌, Eq,
}
use tracker_miners.Base.Files.{FileOps}
use tracker_miners.FileNotifier.{FileInfo, Surroundings, IndexRoot, file_updated, flag_recurse}
use tracker_miners.FileNotifier.Cached.{bit}
use tracker_miners.FileNotifier.Roots.{
  FileNotifier, Flight, Answer, query_execute, file_notifier_new, take_flight, root_at, emit,
  run_callback, cursor_with, answer_flight, query_execute_cb, queue_root, directory_finished_output,
}
use tracker_miners.FileNotifier.Monitored.{remove_directory, handle_signal}
use tracker_miners.FileNotifier.Kept.{IsKept, Kept-if, handle_signal-Kept}
use tracker_miners.FileNotifier.Events.{
  Batch, Event, directory_added, directory_updated, directory_removed, child_updated,
  sets_high_water, starts, stops, answers, idles, monitored, set_high_water, start,
  with_check_deleted, indexing_tree_child_updated, step, run, is_active, notifier_continue,
  run_idle, handle_cursor,
}
use tracker_miners.FileNotifier.Sound.{busy, foreign, count-take_flight, IsCurrent}
use tracker_miners.FileNotifier.Runs.{reached-IsSound}

module _ {File Name : Type 0} ⦃ops : FileOps File⦄ ⦃names : Eq Name⦄ where
  -- The notifier is started, and waits for the root of a number, for which nothing is in flight.
  abbrev pub waits_for : ℕ → Option (IndexRoot File Name) → Bool
  waits_for i none = false
  waits_for i (some r) = nat_eq r.id i && not r.idle

  pub record IsStalled (i : ℕ) (n : FileNotifier File Name) : Type 0 where
    pub running : n.stopped ≡ false
    pub waiting : waits_for i n.current_index_root ≡ true
    pub none_busy : busy n.flights ≡ 0
    pub active : n.active ≡ true

  -- an event other than a stop or the removal of a directory from the indexing tree
  abbrev pub Leaves : Event File Name → Type 0
  Leaves (directory_removed f) = ⊥
  Leaves stops = ⊥
  Leaves _ = Unit {0}

  abbrev pub AllLeave : List (Surroundings File Name × Event File Name) → Type 0
  AllLeave [] = Unit {0}
  AllLeave ((env, e) ∷ es) = Leaves e × AllLeave es

  abbrev Stalls : ℕ → Option (FileNotifier File Name) → Type 0
  Stalls i o = (m : FileNotifier File Name) × (o ≡ some m) × IsStalled i m

  Stalls-if :
      (b : Bool) (i : ℕ) (x y : Option (FileNotifier File Name))
      → (b ≡ true → Stalls i x)
      → (b ≡ false → Stalls i y)
      → Stalls i (if b then x else y)
  Stalls-if true i x y h k = h refl
  Stalls-if false i x y h k = k refl

  queued-IsStalled :
      (i : ℕ) (f : File) (flags : ℕ) (b : Bool) (o : Option (IndexRoot File Name))
      (n : FileNotifier File Name)
      → IsStalled i (record n { current_index_root = o })
      → IsStalled i (queue_root f flags b (record n { current_index_root = o }))
  unfolding queue_root
  queued-IsStalled i f flags b none n h = absurd (ground (arith, h.waiting))
  queued-IsStalled i f flags b (some r) n h = record {
    running = h.running;
    waiting = h.waiting;
    none_busy = h.none_busy;
    active = h.active;
  }

  gone-waits :
      (i : ℕ) (f : File) (o : Option (IndexRoot File Name))
      → waits_for i (remove_directory f o) ≡ waits_for i o
  gone-waits i f none = refl
  gone-waits i f (some r) = refl

  kept-IsStalled : (i : ℕ) → IsKept (IsStalled i)
  kept-IsStalled i = record {
    emitted = λ outputs n h. record {
      running = h.running;
      waiting = h.waiting;
      none_busy = h.none_busy;
      active = h.active;
    };
    queued = λ f flags b n h. queued-IsStalled i f flags b n.current_index_root n h;
    removed = λ f n h. record {
      running = h.running;
      waiting = gone-waits i f n.current_index_root ∙ h.waiting;
      none_busy = h.none_busy;
      active = h.active;
    };
  }

  child-IsStalled :
      (i : ℕ) (env : Surroundings File Name) (f : File) (info : Option FileInfo)
      (n : FileNotifier File Name)
      → IsStalled i n
      → IsStalled i (indexing_tree_child_updated env f info n)
  unfolding indexing_tree_child_updated
  child-IsStalled i env f none n h = h
  child-IsStalled i env f (some info) n h =
      let kept = kept-IsStalled i in
      let flags = with_check_deleted (env.root_flags f) in
      let told = emit (file_updated f ∷ []) n in
      let listed = env.file_is_indexable f (some info) in
      Kept-if (IsStalled i) kept (info.is_directory && flag_recurse (env.root_flags f))
        (queue_root f flags false n) (if listed then told else n) (kept.queued f flags false n h)
        (Kept-if (IsStalled i) kept listed told n (kept.emitted (file_updated f ∷ []) n h) h)

  answers-Stalls :
      (i : ℕ) (env : Surroundings File Name) (k : ℕ) (a : Answer File) (n : FileNotifier File Name)
      (o : Option (Flight File × List (Flight File)))
      → take_flight k n.flights ≡ o
      → IsStalled i n
      → Stalls i (elim o [
        | none ↦ some n
        | some (f, rest) ↦ answer_flight env f a (record n { flights = rest })
      ])
  unfolding answer_flight
  answers-Stalls i env k a n none e h = (n, refl, h)
  answers-Stalls i env k a n (some (f, rest)) e h =
      let all = count-take_flight (λ x. not x.cancelled) k n.flights f rest e in
      let m = record n { flights = rest } in
      Stalls-if f.cancelled i (some m)
        (root_at f.root n.current_index_root >>= λ r. run_callback env f.callback a r m)
        (λ gone. (
          m,
          refl,
          record {
            running = h.running;
            waiting = h.waiting;
            none_busy = ground (arith, all, gone, h.none_busy);
            active = h.active;
          },
        ))
        (λ alive. absurd (ground (arith, all, alive, h.none_busy)))

  idle-Stalls :
      (i : ℕ) (env : Surroundings File Name) (batch : Batch File Name)
      (o : Option (IndexRoot File Name)) (n : FileNotifier File Name)
      → IsStalled i n
      → waits_for i o ≡ true
      → Stalls i (run_idle env batch o n)
  idle-Stalls i env batch none n h w = (n, refl, h)
  idle-Stalls i env batch (some r) n h w =
      Stalls-if r.idle i (handle_cursor env batch r n) (some n) (λ e. absurd (ground (arith, e, w)))
        (λ e. (n, refl, h))

  step-Stalls :
      (i : ℕ) (env : Surroundings File Name) (e : Event File Name) (n : FileNotifier File Name)
      → Leaves e
      → IsStalled i n
      → Stalls i (step env e n)
  unfolding step set_high_water start
  step-Stalls i env (directory_added f) n l h = (
    queue_root f (env.root_flags f) false n,
    refl,
    (kept-IsStalled i).queued f (env.root_flags f) false n h,
  )
  step-Stalls i env (directory_updated f) n l h = (
    queue_root f (with_check_deleted (env.root_flags f)) false n,
    refl,
    (kept-IsStalled i).queued f (with_check_deleted (env.root_flags f)) false n h,
  )
  step-Stalls i env (directory_removed f) n l h = absurd l
  step-Stalls i env (child_updated f info) n l h =
      (indexing_tree_child_updated env f info n, refl, child-IsStalled i env f info n h)
  step-Stalls i env (sets_high_water true) n l h = (
    record n { high_water = true },
    refl,
    record { running = h.running; waiting = h.waiting; none_busy = h.none_busy; active = h.active },
  )
  step-Stalls i env (sets_high_water false) n l h =
      let low = record n { high_water = false } in
      Stalls-if (n.high_water && not n.active && is_active n) i
        (notifier_continue env n.current_index_root low) (some low)
        (λ e. absurd (ground (arith, e, h.active)))
        (λ e. (
          low,
          refl,
          record {
            running = h.running;
            waiting = h.waiting;
            none_busy = h.none_busy;
            active = h.active;
          },
        ))
  step-Stalls i env starts n l h =
      Stalls-if n.stopped i
        (notifier_continue env n.current_index_root (record n { stopped = false })) (some n)
        (λ e. absurd (ground (arith, e, h.running))) (λ e. (n, refl, h))
  step-Stalls i env stops n l h = absurd l
  step-Stalls i env (answers k a) n l h =
      answers-Stalls i env k a n (take_flight k n.flights) refl h
  step-Stalls i env (idles batch) n l h = idle-Stalls i env batch n.current_index_root n h h.waiting
  step-Stalls i env (monitored signal) n l h = (
    handle_signal env signal n,
    refl,
    handle_signal-Kept (IsStalled i) (kept-IsStalled i) env signal n h,
  )

  run-Stalls :
      (i : ℕ) (es : List (Surroundings File Name × Event File Name)) (n : FileNotifier File Name)
      → AllLeave es
      → IsStalled i n
      → Stalls i (run es n)
  unfolding run
  run-Stalls i [] n l h = (n, refl, h)
  run-Stalls i ((env, e) ∷ es) n l h =
      let (m, at, k) = step-Stalls i env e n l.0 h in
      let (p, done, stalled) = run-Stalls i es m l.1 k in
      (p, bind_some (step env e n) (run es) m (some p) at done, stalled)

  failed-Stalls :
      (env : Surroundings File Name) (f : Flight File) (a : Answer File)
      (n : FileNotifier File Name) (rest : List (Flight File)) (o : Option (IndexRoot File Name))
      → f.callback ≡ query_execute
      → a.has_cursor ≡ false
      → busy n.flights ≡ suc (busy rest)
      → ((i : ℕ) → foreign i n.flights ≡ bit (not (nat_eq f.root i)) + foreign i rest)
      → n.current_index_root ≡ o
      → IsCurrent n o
      → Stalls f.root
          (root_at f.root o >>= λ r. run_callback env f.callback a r (record n { flights = rest }))
  unfolding query_execute_cb
  failed-Stalls env f a n rest none c cursor one others at h = absurd (ground (arith, one, h.0))
  failed-Stalls env f a n rest (some r) c cursor one others at h =
      let m = record n { flights = rest } in
      let same : nat_eq r.id f.root ≡ true = ground (arith, others r.id, h.owned) in
      let l = emit (directory_finished_output r ∷ []) m in
      (
        l,
        ap (λ b. (if b then some r else none) >>= λ r. run_callback env f.callback a r m) same
            ∙ ap (λ c. run_callback env c a r m) c
            ∙ ap
                (λ b.
                  if b
                  then some (cursor_with true n.high_water (record r { has_cursor = true }) m).1
                  else some l)
                cursor,
        record {
          running = h.running;
          waiting = ap (waits_for f.root) at ∙ ground (arith, same, h.single, one);
          none_busy = ground (arith, h.single, one);
          active = elim (Bool-cases n.active) [
            | inl e ↦ e
            | inr e ↦ absurd (ground (arith, h.at_rest e, one))
          ];
        },
      )

  -- After any events, when a query in flight that is not cancelled is answered with no cursor, and whatever
  -- comes then but stops and removals of directories from the indexing tree, the notifier still has the
  -- root of that query as its current one, and nothing in flight for it or for another.
  pub run-failed_query :
      (count : Option ℕ) (limit : ℕ) (es fs : List (Surroundings File Name × Event File Name))
      (n : FileNotifier File Name) (env : Surroundings File Name) (k : ℕ) (a : Answer File)
      (f : Flight File) (rest : List (Flight File))
      → run es (file_notifier_new count limit) ≡ some n
      → take_flight k n.flights ≡ some (f, rest)
      → f.cancelled ≡ false
      → f.callback ≡ query_execute
      → a.has_cursor ≡ false
      → AllLeave fs
      → (m : FileNotifier File Name) × (run ((env, answers k a) ∷ fs) n ≡ some m)
        × IsStalled f.root m
  unfolding run step answer_flight
  run-failed_query count limit es fs n env k a f rest reached taken alive c cursor l =
      let h = reached-IsSound count limit es n reached in
      let m = record n { flights = rest } in
      let all = count-take_flight (λ x. not x.cancelled) k n.flights f rest taken in
      let (p, at, stalled) =
        failed-Stalls env f a n rest n.current_index_root c cursor (ground (arith, all, alive))
          (λ i. ground (
            arith,
            count-take_flight (λ x. not x.cancelled && not (nat_eq x.root i)) k n.flights f rest
                taken,
            alive,
          ))
          refl h.current in
      let (q, done, last) = run-Stalls f.root fs p l stalled in
      (
        q,
        bind_some (step env (answers k a) n) (run fs) p (some q)
            (ap
                (λ o. elim o [
                  | none ↦ some n
                  | some (g, gs) ↦ answer_flight env g a (record n { flights = gs })
                ])
                taken
              ∙ ap
                  (λ b.
                    if b
                    then some m
                    else root_at f.root n.current_index_root >>= λ r.
                        run_callback env f.callback a r m)
                  alive
              ∙ at)
            done,
        last,
      )
