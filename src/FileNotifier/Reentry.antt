-- ===== src/FileNotifier/Reentry.antt =====
-- src/miners/fs/tracker-file-notifier.c: a handler that lowers the high-water mark in the loop of
-- notifier_check_next_root. The handlers of the miner call tracker_file_notifier_set_high_water when
-- they have queued an event.
use tracker_miners.Base.Options.{◌>>=◌}
use tracker_miners.Base.{
  ℕ, ◌≡◌, refl, ap, ◌∙◌, Bool, true, false, not, ◌&&◌, Option, none, some, List, [], ◌∷◌, ◌++◌,
  if◌then◌else◌, Eq,
}
use tracker_miners.Base.Files.{FileOps}
use tracker_miners.FileNotifier.{
  Surroundings, IndexRoot, file_deleted, finished, monitor_set_enabled, flag_ignore, flag_preserve,
  index_root_new, notify_loop, notify_changes,
}
use tracker_miners.FileNotifier.Roots.{
  FileNotifier, Flight, Answer, query_execute, query_with, emit, next_root, check_next_root,
  continue_root, answer_flight, root_at, run_callback, directory_finished_output,
}
use tracker_miners.FileNotifier.Events.{set_high_water}

module _ {File : Type 0} where
  abbrev pub query_of : ℕ → Flight File
  query_of j = record { root = j; callback = query_execute; cancelled = false }

module _ {File Name : Type 0} ⦃ops : FileOps File⦄ ⦃names : Eq Name⦄ where
  -- the loop goes on behind a turn, whose root it clears from where the current root is
  abbrev pub next_turn : FileNotifier File Name → FileNotifier File Name
  next_turn n = next_root n.pending_index_roots (record n { current_index_root = none })

  -- A turn of the loop of notifier_check_next_root and what comes behind it, when the handler of
  -- file-deleted lowers the mark. The loop clears the current root when the turn is over, whichever
  -- that is.
  unfoldable pub lowered_turn :
      Surroundings File Name
      → IndexRoot File Name
      → List (IndexRoot File Name)
      → FileNotifier File Name
      → Option (FileNotifier File Name)
  lowered_turn env r rs n =
      let m = record n {
        cancellable = some r.id;
        pending_index_roots = rs;
        current_index_root = some r;
      } in
      if flag_ignore r.flags && not (flag_preserve r.flags)
      then (set_high_water env false (emit (file_deleted r.root true ∷ []) m) >>= λ k.
          some (next_turn k))
      else some (next_root (r ∷ rs) n)

  -- started, and held by the high-water mark
  abbrev pub held_low : FileNotifier File Name → FileNotifier File Name
  held_low n = record n { stopped = false; high_water = true; active = false }

  next_root-queries :
      (r : IndexRoot File Name) (rs : List (IndexRoot File Name)) (n : FileNotifier File Name)
      → flag_ignore r.flags ≡ false
      → next_root (r ∷ rs) n
        ≡ (query_with false false r (record n {
          cancellable = some r.id;
          pending_index_roots = rs;
          current_index_root = some r;
        })).1
  unfolding next_root
  next_root-queries r rs n q =
      let m = record n {
        cancellable = some r.id;
        pending_index_roots = rs;
        current_index_root = some r;
      } in
      ap
        (λ x.
          if (query_with x (flag_preserve r.flags) r m).0
          then (query_with x (flag_preserve r.flags) r m).1
          else next_root rs
              (record (query_with x (flag_preserve r.flags) r m).1 { current_index_root = none }))
        q

  abbrev Ends : FileNotifier File Name → FileNotifier File Name → Type 0
  Ends n m = (m.current_index_root ≡ n.current_index_root) × (m.flights ≡ n.flights)

  real_finished-Ends :
      (b : Bool) (n m : FileNotifier File Name) → Ends n m → Ends n (if b then n else m)
  real_finished-Ends true n m h = (refl, refl)
  real_finished-Ends false n m h = h

  -- When a notifier that is held takes a root that is ignored out of the pending ones, and the handler of
  -- its deletion lowers the mark, then the query of the one root that is pending behind it is left in
  -- flight while no root is the current one, and any answer to it is handled on a root that is freed.
  pub lowered_turn-dangles :
      (env : Surroundings File Name) (i j ignored flags : ℕ) (f g : File) (b c : Bool)
      (n : FileNotifier File Name)
      → flag_ignore ignored ≡ true
      → flag_preserve ignored ≡ false
      → flag_ignore flags ≡ false
      → (m : FileNotifier File Name) × (lowered_turn env
            (index_root_new i f ignored b)
            (index_root_new j g flags c ∷ [])
            (held_low n)
          ≡ some m)
        × (m.current_index_root ≡ none)
        × (m.flights ≡ n.flights ++ query_of j ∷ [])
        × ((a : Answer File) → answer_flight env (query_of j) a m ≡ none)
  unfolding lowered_turn set_high_water continue_root notify_changes notify_loop check_next_root
      next_root answer_flight
  lowered_turn-dangles env i j ignored flags f g b c n h p q =
      let r : IndexRoot File Name = index_root_new i f ignored b in
      let s : IndexRoot File Name = index_root_new j g flags c in
      let start = emit (file_deleted f true ∷ []) (record (held_low n) {
        cancellable = some i;
        pending_index_roots = s ∷ [];
        current_index_root = some r;
      }) in
      let freed = record (emit (directory_finished_output r ∷ []) start) {
        high_water = false;
        current_index_root = none;
      } in
      let queried =
        (query_with false false s (record freed {
          cancellable = some j;
          pending_index_roots = [];
          current_index_root = some s;
        })).1 in
      let last = emit (finished ∷ []) (record queried { current_index_root = none }) in
      let told = emit (monitor_set_enabled true ∷ []) (record last { monitor_enabled = true }) in
      let ends = real_finished-Ends n.monitor_enabled last told (refl, refl) in
      (
        next_turn queried,
        ap
              (λ x.
                if x && not (flag_preserve ignored)
                then some (next_turn (next_root (s ∷ []) freed))
                else some (next_root (r ∷ s ∷ []) (held_low n)))
              h
            ∙ ap
                (λ x.
                  if not x
                  then some (next_turn (next_root (s ∷ []) freed))
                  else some (next_root (r ∷ s ∷ []) (held_low n)))
                p
            ∙ ap (λ k. some (next_turn k)) (next_root-queries s [] freed q),
        ends.0,
        ends.1,
        λ a.
            ap (λ o. root_at j o >>= λ r. run_callback env query_execute a r (next_turn queried))
              ends.0,
      )
