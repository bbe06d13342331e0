-- ===== src/FileNotifier/Switches.antt =====
-- What a start, a stop, and a change of the high-water mark leave of the invariant of a notifier.
use tracker_miners.Base.Options.{some_inj}
use tracker_miners.Base.{
  ℕ, ◌≡◌, refl, ap, ◌∙◌, Bool, true, false, not, ◌&&◌, Option, none, some, List, ◌++◌, arith, Eq,
}
use tracker_miners.Base.Files.{FileOps, file_Eq}
use tracker_miners.FileNotifier.{Surroundings, IndexRoot, Output, flag_priority, index_root_new}
use tracker_miners.FileNotifier.Roots.{FileNotifier, cancel, emit, queue_root, check_next_root}
use tracker_miners.FileNotifier.Events.{
  is_active, notifier_continue, set_high_water, start, queue_again, stop, with_priority,
}
use tracker_miners.FileNotifier.Sound.{
  foreign, foreign-le-busy, busy-cancel_flights, AllFresh, IsCurrent, IsSound, framed-IsAt,
  check_next_root-IsSound, IsSound-if, added-IsSound, add_root-AllFresh, new-IsFresh,
}
use tracker_miners.FileNotifier.Continues.{Moves, Moves-if, continue_root-Moves}

module _ {File Name : Type 0} ⦃ops : FileOps File⦄ ⦃names : Eq Name⦄ where
  -- outputs change nothing
  emitted-IsCurrent :
      (outputs : List (Output File)) (n : FileNotifier File Name) (o : Option (IndexRoot File Name))
      → IsCurrent n o
      → IsCurrent (emit outputs n) o
  emitted-IsCurrent outputs n none h = h
  emitted-IsCurrent outputs n (some r) h =
      framed-IsAt n.pending_index_roots n.current_index_root n.next_id (n.outputs ++ outputs) n r h

  pub emit-IsSound :
      (outputs : List (Output File)) (n : FileNotifier File Name)
      → IsSound n
      → IsSound (emit outputs n)
  emit-IsSound outputs n h = record {
    fresh = h.fresh;
    current = emitted-IsCurrent outputs n n.current_index_root h.current;
  }

  -- the level of the items changes, and nothing is held
  level-IsCurrent :
      (high : Bool) (n : FileNotifier File Name) (o : Option (IndexRoot File Name))
      → IsCurrent n o
      → IsCurrent (record n { high_water = high }) o
  level-IsCurrent high n none h = h
  level-IsCurrent high n (some r) h = record {
    running = h.running;
    token = h.token;
    alive = h.alive;
    cached = h.cached;
    reading = h.reading;
    single = h.single;
    owned = h.owned;
    at_rest = h.at_rest;
  }

  continue-Moves :
      (env : Surroundings File Name) (n : FileNotifier File Name) (o : Option (IndexRoot File Name))
      → AllFresh n.pending_index_roots
      → IsCurrent n o
      → n.active ≡ false
      → n.current_index_root ≡ o
      → Moves (notifier_continue env o (record n { high_water = false }))
  continue-Moves env n none fresh h rest at =
      let m = record n { high_water = false } in
      (check_next_root m, refl, added-IsSound none m fresh at h.0)
  continue-Moves env n (some r) fresh h rest at =
      continue_root-Moves env r (record n { high_water = false })
        (record {
          fresh = fresh;
          running = h.running;
          token = h.token;
          alive = h.alive;
          cached = h.cached;
          reading = h.reading;
          none_busy = h.at_rest rest;
        })

  pub set_high_water-Moves :
      (env : Surroundings File Name) (b : Bool) (n : FileNotifier File Name)
      → IsSound n
      → Moves (set_high_water env b n)
  unfolding set_high_water
  set_high_water-Moves env true n h = (
    record n { high_water = true },
    refl,
    record { fresh = h.fresh; current = level-IsCurrent true n n.current_index_root h.current },
  )
  set_high_water-Moves env false n h =
      let low = record n { high_water = false } in
      Moves-if (n.high_water && not n.active && is_active n)
        (notifier_continue env n.current_index_root low) (some low)
        (λ e. continue-Moves env n n.current_index_root h.fresh h.current (ground (arith, e)) refl)
        (λ e. (
          low,
          refl,
          record {
            fresh = h.fresh;
            current = level-IsCurrent false n n.current_index_root h.current;
          },
        ))

  started-Moves :
      (env : Surroundings File Name) (n : FileNotifier File Name) (o : Option (IndexRoot File Name))
      → AllFresh n.pending_index_roots
      → IsCurrent n o
      → n.stopped ≡ true
      → Moves (notifier_continue env o (record n { stopped = false }))
  started-Moves env n none fresh h e = (
    check_next_root (record n { stopped = false }),
    refl,
    check_next_root-IsSound (record n { stopped = false }) fresh
        (record { running = refl; none_busy = h.0 }),
  )
  started-Moves env n (some r) fresh h e = absurd (ground (arith, e, h.running))

  pub start-Moves :
      (env : Surroundings File Name) (n : FileNotifier File Name) → IsSound n → Moves (start env n)
  unfolding start
  start-Moves env n h =
      Moves-if n.stopped (notifier_continue env n.current_index_root (record n { stopped = false }))
        (some n) (started-Moves env n n.current_index_root h.fresh h.current) (λ e. (n, refl, h))

  stopped-IsSound :
      (t : Option ℕ) (o : Option (IndexRoot File Name)) (n : FileNotifier File Name)
      → IsSound (record n { cancellable = t; current_index_root = o })
      → IsSound (
          let m = cancel t (record n { cancellable = t; current_index_root = o }) in
          record (queue_again m.current_index_root m) { stopped = true })
  unfolding queue_root
  stopped-IsSound none none n h = record {
    fresh = h.fresh;
    current = (h.current.0, λ e. absurd (ground (arith, e)));
  }
  stopped-IsSound none (some r) n h = absurd (ground (arith, h.current.token))
  stopped-IsSound (some i) none n h = record {
    fresh = h.fresh;
    current = (
      ground (arith, busy-cancel_flights i n.flights, foreign-le-busy i n.flights, h.current.0),
      λ e. absurd (ground (arith, e)),
    );
  }
  stopped-IsSound (some i) (some r) n h = record {
    fresh =
        add_root-AllFresh (flag_priority (with_priority r.flags))
          (index_root_new n.next_id r.root (with_priority r.flags) r.ignore_root)
          n.pending_index_roots (new-IsFresh n.next_id r.root (with_priority r.flags) r.ignore_root)
          h.fresh;
    current = (
      busy-cancel_flights i n.flights
          ∙ ap (λ j. foreign j n.flights) (some_inj i r.id h.current.token)
          ∙ h.current.owned,
      λ e. absurd (ground (arith, e)),
    );
  }

  pub stop-IsSound : (n : FileNotifier File Name) → IsSound n → IsSound (stop n)
  unfolding stop
  stop-IsSound n h =
      let m = cancel n.cancellable n in
      IsSound-if n.stopped n (record (queue_again m.current_index_root m) { stopped = true })
        (λ e. h) (λ e. stopped-IsSound n.cancellable n.current_index_root n h)
