-- ===== src/FileNotifier/Steps.antt =====
-- What each event leaves of the invariant of a notifier.
use tracker_miners.Base.Options.{some_inj}
use tracker_miners.Base.{
  ℕ, ◌≡◌, refl, ap, ◌∙◌, Bool, true, false, ◌&&◌, Option, none, some, List, [], ◌∷◌, arith,
  if◌then◌else◌, Eq, ◌==◌,
}
use tracker_miners.Base.Files.{FileOps, file_Eq}
use tracker_miners.FileNotifier.{
  FileInfo, Surroundings, IndexRoot, file_created, file_updated, file_deleted,
  monitor_remove_recursively, flag_recurse, flag_ignore, flag_preserve,
}
use tracker_miners.FileNotifier.Roots.{
  FileNotifier, Flight, Answer, take_flight, answer_flight, cancel, emit, queue_root,
  check_next_root, directory_finished_output,
}
use tracker_miners.FileNotifier.Switches.{
  emit-IsSound, set_high_water-Moves, start-Moves, stop-IsSound,
}
use tracker_miners.FileNotifier.Monitored.{remove_directory, handle_signal}
use tracker_miners.FileNotifier.Kept.{IsKept, handle_signal-Kept}
use tracker_miners.FileNotifier.Events.{
  Batch, Event, directory_added, directory_updated, directory_removed, child_updated,
  sets_high_water, starts, stops, answers, idles, monitored, delete_root, run_idle, stop, unignore,
  leave_root, with_check_deleted, handle_cursor, indexing_tree_directory_removed,
  indexing_tree_child_updated, step,
}
use tracker_miners.FileNotifier.Sound.{
  foreign, busy-cancel_flights, AllFresh, IsCurrent, IsSound, framed-IsAt, check_next_root-IsSound,
  queue_root-IsSound, IsSound-if,
}
use tracker_miners.FileNotifier.Continues.{Moves, Moves-if}
use tracker_miners.FileNotifier.Answers.{answer-Moves, handle_cursor-Moves}

module _ {File Name : Type 0} ⦃ops : FileOps File⦄ ⦃names : Eq Name⦄ where
  idle-Moves :
      (env : Surroundings File Name) (batch : Batch File Name) (o : Option (IndexRoot File Name))
      (n : FileNotifier File Name)
      → IsSound n
      → IsCurrent n o
      → Moves (run_idle env batch o n)
  idle-Moves env batch none n h c = (n, refl, h)
  idle-Moves env batch (some r) n h c =
      Moves-if r.idle (handle_cursor env batch r n) (some n)
        (λ e. handle_cursor-Moves env batch r n e h c) (λ e. (n, refl, h))

  AllFresh-if :
      (b : Bool) (rs ss : List (IndexRoot File Name))
      → AllFresh rs
      → AllFresh ss
      → AllFresh (if b then rs else ss)
  AllFresh-if true rs ss h k = h
  AllFresh-if false rs ss h k = k

  delete_root-AllFresh :
      (f : File) (rs : List (IndexRoot File Name)) → AllFresh rs → AllFresh (delete_root f rs)
  unfolding delete_root
  delete_root-AllFresh f [] h = tt
  delete_root-AllFresh f (r ∷ rs) h =
      AllFresh-if (r.root == f) rs (r ∷ delete_root f rs) h.1 (h.0, delete_root-AllFresh f rs h.1)

  leave-IsSound :
      (f : File) (t : Option ℕ) (o : Option (IndexRoot File Name)) (n : FileNotifier File Name)
      → IsSound (record n { cancellable = t; current_index_root = o })
      → IsSound (leave_root f o (record n { cancellable = t; current_index_root = o }))
  leave-IsSound f t none n h = h
  leave-IsSound f none (some r) n h = absurd (ground (arith, h.current.token))
  leave-IsSound f (some i) (some r) n h =
      let k = record n { cancellable = some i; current_index_root = some r } in
      let m = emit (directory_finished_output r ∷ []) (cancel (some i) k) in
      IsSound-if (r.root == f) (check_next_root m) k
        (λ e. check_next_root-IsSound m h.fresh (record {
          running = h.current.running;
          none_busy =
              busy-cancel_flights i n.flights
              ∙ ap (λ j. foreign j n.flights) (some_inj i r.id h.current.token)
              ∙ h.current.owned;
        }))
        (λ e. h)

  fewer-IsSound :
      (f : File) (o : Option (IndexRoot File Name)) (n : FileNotifier File Name)
      → IsSound (record n { current_index_root = o })
      → IsSound (record n {
        current_index_root = o;
        pending_index_roots = delete_root f n.pending_index_roots;
      })
  unfolding delete_root
  fewer-IsSound f none n h = record {
    fresh = delete_root-AllFresh f n.pending_index_roots h.fresh;
    current = (h.current.0, λ e. (ap (delete_root f) (h.current.1 e).0, (h.current.1 e).1));
  }
  fewer-IsSound f (some r) n h = record {
    fresh = delete_root-AllFresh f n.pending_index_roots h.fresh;
    current =
        framed-IsAt (delete_root f n.pending_index_roots) (some r) n.next_id n.outputs
          (record n { current_index_root = some r }) r h.current;
  }

  unignore-IsSound :
      (env : Surroundings File Name) (f : File) (o : Option File) (n : FileNotifier File Name)
      → IsSound n
      → IsSound (unignore env f o n)
  unignore-IsSound env f none n h = h
  unignore-IsSound env f (some parent) n h =
      let created = emit (file_created f ∷ []) n in
      IsSound-if (flag_recurse (env.root_flags parent))
        (queue_root f (env.root_flags parent) false n)
        (if env.file_is_root parent then created else n)
        (λ e. queue_root-IsSound f (env.root_flags parent) false n h)
        (λ e.
          IsSound-if (env.file_is_root parent) created n
            (λ e. emit-IsSound (file_created f ∷ []) n h) (λ e. h))

  removed-IsSound :
      (env : Surroundings File Name) (f : File) (n : FileNotifier File Name)
      → IsSound n
      → IsSound (indexing_tree_directory_removed env f n)
  unfolding indexing_tree_directory_removed
  removed-IsSound env f n h =
      let gone = emit (file_deleted f true ∷ []) n in
      let m = if flag_preserve (env.root_flags f) then n else gone in
      let told =
        IsSound-if (flag_preserve (env.root_flags f)) n gone (λ e. h)
          (λ e. emit-IsSound (file_deleted f true ∷ []) n h) in
      let k = record m { pending_index_roots = delete_root f m.pending_index_roots } in
      IsSound-if (flag_ignore (env.root_flags f)) (unignore env f (env.get_parent f) n)
        (emit (monitor_remove_recursively f ∷ []) (leave_root f m.current_index_root k))
        (λ e. unignore-IsSound env f (env.get_parent f) n h)
        (λ e.
          emit-IsSound (monitor_remove_recursively f ∷ []) (leave_root f m.current_index_root k) (
            leave-IsSound f m.cancellable m.current_index_root k
              (fewer-IsSound f m.current_index_root m told)))

  child-IsSound :
      (env : Surroundings File Name) (f : File) (info : Option FileInfo)
      (n : FileNotifier File Name)
      → IsSound n
      → IsSound (indexing_tree_child_updated env f info n)
  unfolding indexing_tree_child_updated
  child-IsSound env f none n h = h
  child-IsSound env f (some info) n h =
      IsSound-if (info.is_directory && flag_recurse (env.root_flags f))
        (queue_root f (with_check_deleted (env.root_flags f)) false n)
        (if env.file_is_indexable f (some info) then emit (file_updated f ∷ []) n else n)
        (λ e. queue_root-IsSound f (with_check_deleted (env.root_flags f)) false n h)
        (λ e.
          IsSound-if (env.file_is_indexable f (some info)) (emit (file_updated f ∷ []) n) n
            (λ e. emit-IsSound (file_updated f ∷ []) n h) (λ e. h))

  gone-IsSound :
      (f : File) (o : Option (IndexRoot File Name)) (n : FileNotifier File Name)
      → IsSound (record n { current_index_root = o })
      → IsSound (record n { current_index_root = remove_directory f o })
  gone-IsSound f none n h = h
  gone-IsSound f (some r) n h =
      let c = h.current in
      record {
        fresh = h.fresh;
        current = record {
          running = c.running;
          token = c.token;
          alive = c.alive;
          cached = record { queued = c.cached.queued; own = c.cached.own };
          reading = c.reading;
          single = c.single;
          owned = c.owned;
          at_rest = c.at_rest;
        };
      }

  kept-IsSound : IsKept {File = File} {Name = Name} IsSound
  kept-IsSound = record {
    emitted = emit-IsSound;
    queued = queue_root-IsSound;
    removed = λ f n h. gone-IsSound f n.current_index_root n h;
  }

  answers-Moves :
      (env : Surroundings File Name) (k : ℕ) (a : Answer File) (n : FileNotifier File Name)
      (o : Option (Flight File × List (Flight File)))
      → take_flight k n.flights ≡ o
      → IsSound n
      → Moves (elim o [
        | none ↦ some n
        | some (f, rest) ↦ answer_flight env f a (record n { flights = rest })
      ])
  answers-Moves env k a n none e h = (n, refl, h)
  answers-Moves env k a n (some (f, rest)) e h = answer-Moves env k f a n rest e h

  pub step-Moves :
      (env : Surroundings File Name) (e : Event File Name) (n : FileNotifier File Name)
      → IsSound n
      → Moves (step env e n)
  unfolding step
  step-Moves env (directory_added f) n h = (
    queue_root f (env.root_flags f) false n,
    refl,
    queue_root-IsSound f (env.root_flags f) false n h,
  )
  step-Moves env (directory_updated f) n h = (
    queue_root f (with_check_deleted (env.root_flags f)) false n,
    refl,
    queue_root-IsSound f (with_check_deleted (env.root_flags f)) false n h,
  )
  step-Moves env (directory_removed f) n h =
      (indexing_tree_directory_removed env f n, refl, removed-IsSound env f n h)
  step-Moves env (child_updated f info) n h =
      (indexing_tree_child_updated env f info n, refl, child-IsSound env f info n h)
  step-Moves env (sets_high_water b) n h = set_high_water-Moves env b n h
  step-Moves env starts n h = start-Moves env n h
  step-Moves env stops n h = (stop n, refl, stop-IsSound n h)
  step-Moves env (answers k a) n h = answers-Moves env k a n (take_flight k n.flights) refl h
  step-Moves env (idles batch) n h = idle-Moves env batch n.current_index_root n h h.current
  step-Moves env (monitored signal) n h =
      (handle_signal env signal n, refl, handle_signal-Kept IsSound kept-IsSound env signal n h)
