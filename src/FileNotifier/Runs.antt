-- ===== src/FileNotifier/Runs.antt =====
-- Any events from a new notifier on.
use tracker_miners.Base.Options.{bind_some, some_inj}
use tracker_miners.Base.{
  ℕ, ltb, ◌≡◌, refl, sym, subst, ◌∙◌, Bool, true, false, Option, none, some, List, [], ◌∷◌, arith,
  Eq,
}
use tracker_miners.Base.Files.{FileOps}
use tracker_miners.FileNotifier.{Surroundings, IndexRoot, Output, monitor_set_enabled}
use tracker_miners.FileNotifier.Roots.{
  FileNotifier, emit, file_notifier_init, file_notifier_new, check_disable_monitor,
}
use tracker_miners.FileNotifier.Events.{Event, is_active, step, run}
use tracker_miners.FileNotifier.Sound.{IsCurrent, IsSound, IsSound-if}
use tracker_miners.FileNotifier.Continues.{Moves}
use tracker_miners.FileNotifier.Steps.{step-Moves}

module _ {File Name : Type 0} ⦃ops : FileOps File⦄ ⦃names : Eq Name⦄ where
  run-Moves :
      (es : List (Surroundings File Name × Event File Name)) (n : FileNotifier File Name)
      → IsSound n
      → Moves (run es n)
  unfolding run
  run-Moves [] n h = (n, refl, h)
  run-Moves ((env, e) ∷ es) n h =
      let (m, at, k) = step-Moves env e n h in
      let (l, done, sound) = run-Moves es m k in
      (l, bind_some (step env e n) (run es) m (some l) at done, sound)

  at_rest-IsSound :
      (b : Bool) (outputs : List (Output File))
      → IsSound (record (emit outputs (file_notifier_init {File = File} {Name = Name})) {
        monitor_enabled = b;
      })
  at_rest-IsSound b outputs = record {
    fresh = tt;
    current = (refl, λ e. absurd (ground (arith, e)));
  }

  new-IsSound :
      (count : Option ℕ) (limit : ℕ)
      → IsSound (file_notifier_new {File = File} {Name = Name} count limit)
  unfolding check_disable_monitor
  new-IsSound none limit = at_rest-IsSound true []
  new-IsSound (some count) limit =
      IsSound-if (ltb limit count)
        (emit (monitor_set_enabled false ∷ [])
          (record (file_notifier_init {File = File} {Name = Name}) { monitor_enabled = false }))
        file_notifier_init (λ e. at_rest-IsSound false (monitor_set_enabled false ∷ []))
        (λ e. at_rest-IsSound true [])

  -- what holds behind any events on a new notifier
  run-new-IsSound :
      (count : Option ℕ) (limit : ℕ) (es : List (Surroundings File Name × Event File Name))
      → (n : FileNotifier File Name) × (run es (file_notifier_new count limit) ≡ some n) × IsSound n
  run-new-IsSound count limit es =
      run-Moves es (file_notifier_new count limit) (new-IsSound count limit)

  pub reached-IsSound :
      (count : Option ℕ) (limit : ℕ) (es : List (Surroundings File Name × Event File Name))
      (n : FileNotifier File Name)
      → run es (file_notifier_new count limit) ≡ some n
      → IsSound n
  reached-IsSound count limit es n e =
      let (m, d, s) = run-new-IsSound count limit es in subst (IsSound) (some_inj m n (sym d ∙ e)) s

  enabled :
      (n : FileNotifier File Name) (o : Option (IndexRoot File Name))
      → n.current_index_root ≡ o
      → IsCurrent n o
      → n.stopped ≡ false
      → is_active n ≡ false
      → n.monitor_enabled ≡ true
  enabled n none at h running done = (h.1 running).1
  enabled n (some r) at h running done = absurd (ground (arith, done, at))

  -- Whether the monitor of a new notifier was disabled for its folder count or not, it is enabled after
  -- any events that leave the notifier started and with no root to index.
  pub run-new-enabled :
      (count : Option ℕ) (limit : ℕ) (es : List (Surroundings File Name × Event File Name))
      (n : FileNotifier File Name)
      → run es (file_notifier_new count limit) ≡ some n
      → n.stopped ≡ false
      → is_active n ≡ false
      → n.monitor_enabled ≡ true
  run-new-enabled count limit es n e running done =
      enabled n n.current_index_root refl (reached-IsSound count limit es n e).current running done
