-- ===== src/FileNotifier/Continues.antt =====
-- The current root goes on: it reads its cursor, crawls its next directory, or ends.
use tracker_miners.Base.Options.{◌>>=◌}
use tracker_miners.Base.{
  ◌≡◌, refl, sym, ap, subst, inl, inr, Bool, true, false, Option, some, List, [], ◌∷◌, ◌++◌, arith,
  if◌then◌else◌, Bool-cases, Eq,
}
use tracker_miners.Base.Files.{FileOps}
use tracker_miners.FileNotifier.{Surroundings, IndexRoot}
use tracker_miners.FileNotifier.Cached.{IsCached}
use tracker_miners.FileNotifier.Crawled.{told, notify_changes-told}
use tracker_miners.FileNotifier.Roots.{
  FileNotifier, cursor_with, crawl_with, crawl_callback, monitor_outputs, launch, emit, held,
  check_next_root, directory_finished_output, finish_root, continue_root,
}
use tracker_miners.FileNotifier.Sound.{
  busy, foreign-le-busy, AllFresh, IsSound, launch-IsSound, check_next_root-IsSound,
}

module _ {File Name : Type 0} ⦃ops : FileOps File⦄ ⦃names : Eq Name⦄ where
  -- A call runs without a fault, to a notifier of which the invariant holds.
  abbrev pub Moves : Option (FileNotifier File Name) → Type 0
  Moves o = (m : FileNotifier File Name) × (o ≡ some m) × IsSound m

  pub Moves-if :
      (b : Bool) (x y : Option (FileNotifier File Name))
      → (b ≡ true → Moves x)
      → (b ≡ false → Moves y)
      → Moves (if b then x else y)
  Moves-if true x y h k = h refl
  Moves-if false x y h k = k refl

  -- nothing is in flight for the current root `r`
  pub record IsResting (n : FileNotifier File Name) (r : IndexRoot File Name) : Type 0 where
    pub fresh : AllFresh n.pending_index_roots
    pub running : n.stopped ≡ false
    pub token : n.cancellable ≡ some r.id
    pub alive : r.cancelled ≡ false
    pub cached : IsCached r
    pub reading : r.idle ≡ true → r.has_cursor ≡ true
    pub none_busy : busy n.flights ≡ 0

  finish-Moves :
      (r : IndexRoot File Name) (n : FileNotifier File Name)
      → IsResting n r
      → Moves (finish_root r n)
  finish-Moves r n h =
      let (s, e, next, empty) = notify_changes-told r h.cached in
      let m =
        emit (told r.queue r.cache ++ directory_finished_output s ∷ [])
          (record n { current_index_root = some s }) in
      (
        check_next_root m,
        ap
            (λ o. o >>= λ x. some (
              check_next_root (
                emit (x.0 ++ directory_finished_output x.1 ∷ [])
                  (record n { current_index_root = some x.1 }))))
            e,
        check_next_root-IsSound m h.fresh (record { running = h.running; none_busy = h.none_busy }),
      )

  pub held-IsSound :
      (r : IndexRoot File Name) (n : FileNotifier File Name)
      → n.high_water ≡ true
      → IsResting n r
      → IsSound (held (record n { current_index_root = some r }))
  held-IsSound r n high h = record {
    fresh = h.fresh;
    current = record {
      running = h.running;
      token = h.token;
      alive = h.alive;
      cached = h.cached;
      reading = h.reading;
      single = ground (arith, h.none_busy);
      owned = ground (arith, foreign-le-busy r.id n.flights, h.none_busy);
      at_rest = λ e. h.none_busy;
    };
  }

  pub idle-IsSound :
      (r : IndexRoot File Name) (n : FileNotifier File Name)
      → r.has_cursor ≡ true
      → IsResting n r
      → IsSound (record n { current_index_root = some (record r { idle = true }) })
  idle-IsSound r n cursor h = record {
    fresh = h.fresh;
    current = record {
      running = h.running;
      token = h.token;
      alive = h.alive;
      cached = record { queued = h.cached.queued; own = h.cached.own };
      reading = λ e. cursor;
      single = ground (arith, h.none_busy);
      owned = ground (arith, foreign-le-busy r.id n.flights, h.none_busy);
      at_rest = λ e. h.none_busy;
    };
  }

  crawl-Moves :
      (high : Bool) (env : Surroundings File Name) (dirs : List (File × Bool))
      (r : IndexRoot File Name) (n : FileNotifier File Name)
      → n.high_water ≡ high
      → n.current_index_root ≡ some r
      → r.idle ≡ false
      → IsResting n r
      → Moves (
          if (crawl_with high env dirs r n).0
          then some (crawl_with high env dirs r n).1
          else finish_root r (crawl_with high env dirs r n).1)
  crawl-Moves true env dirs r n high at idle h = (
    held n,
    refl,
    subst (λ o. IsSound (held (record n { current_index_root = o }))) (sym at)
        (held-IsSound r n high h),
  )
  crawl-Moves false env [] r n high at idle h = finish-Moves r n h
  crawl-Moves false env ((directory, is_root) ∷ dirs) r n high at idle h =
      let r' = record r { pending_dirs = dirs; current_dir = some directory } in
      let m = emit (monitor_outputs env directory) (record n { active = true }) in
      (
        launch (crawl_callback r directory is_root) r' m,
        refl,
        launch-IsSound (crawl_callback r directory is_root) r' m h.fresh
            (record {
              cached = record { queued = h.cached.queued; own = h.cached.own };
              idle = idle;
              alive = h.alive;
            })
            h.running h.token refl h.none_busy,
      )

  cursor-Moves :
      (cursor high : Bool) (env : Surroundings File Name) (r : IndexRoot File Name)
      (n : FileNotifier File Name)
      → r.has_cursor ≡ cursor
      → n.high_water ≡ high
      → IsResting n r
      → Moves (
          if (cursor_with cursor high r n).0
          then some (cursor_with cursor high r n).1
          else let m = (cursor_with cursor high r n).1 in
            if (crawl_with m.high_water env r.pending_dirs r m).0
            then some (crawl_with m.high_water env r.pending_dirs r m).1
            else finish_root r (crawl_with m.high_water env r.pending_dirs r m).1)
  cursor-Moves true true env r n cursor high h =
      (held (record n { current_index_root = some r }), refl, held-IsSound r n high h)
  cursor-Moves true false env r n cursor high h = (
    record n { current_index_root = some (record r { idle = true }) },
    refl,
    idle-IsSound r n cursor h,
  )
  cursor-Moves false high' env r n cursor high h =
      crawl-Moves n.high_water env r.pending_dirs r (record n { current_index_root = some r }) refl
        refl
        (elim (Bool-cases r.idle) [
          | inl e ↦ absurd (ground (arith, h.reading e, cursor))
          | inr e ↦ e
        ])
        (record {
          fresh = h.fresh;
          running = h.running;
          token = h.token;
          alive = h.alive;
          cached = h.cached;
          reading = h.reading;
          none_busy = h.none_busy;
        })

  pub continue_root-Moves :
      (env : Surroundings File Name) (r : IndexRoot File Name) (n : FileNotifier File Name)
      → IsResting n r
      → Moves (continue_root env r n)
  unfolding continue_root
  continue_root-Moves env r n h = cursor-Moves r.has_cursor n.high_water env r n refl refl h
