-- ===== src/FileNotifier/Sound.antt =====
-- What holds of a notifier between two events: which calls are in flight, and for which root.
use tracker_miners.Base.{
  ℕ, zero, suc, ◌+◌, ◌≤◌, ◌≡◌, refl, sym, subst, inl, inr, Bool, true, false, not, ◌&&◌, Option,
  none, some, List, [], ◌∷◌, ◌++◌, arith, nat_eq, nat_eq_refl, count, count-append, if◌then◌else◌,
  Option-cases, Eq, is_some, lookup,
}
use tracker_miners.Base.Files.{FileOps, file_Eq}
use tracker_miners.FileNotifier.{
  IndexRoot, Output, file_deleted, directory_started, finished, monitor_set_enabled, index_root_new,
  flag_ignore, flag_preserve, flag_priority,
}
use tracker_miners.FileNotifier.Cached.{bit, IsCached}
use tracker_miners.FileNotifier.Roots.{
  FileNotifier, Flight, Callback, query_execute, cancel_flights, take_flight, emit, launch,
  query_with, next_root, check_next_root, add_root, queue_root,
}

module _ {File : Type 0} where
  -- the flights that are not cancelled
  abbrev pub busy : List (Flight File) → ℕ
  busy fs = count (λ f. not f.cancelled) fs

  -- those of them that are not a root's
  abbrev pub foreign : ℕ → List (Flight File) → ℕ
  foreign i fs = count (λ f. not f.cancelled && not (nat_eq f.root i)) fs

  pub foreign-le-busy : (i : ℕ) (fs : List (Flight File)) → foreign i fs ≤ busy fs
  foreign-le-busy i [] = omega arith
  foreign-le-busy i (f ∷ fs) = ground (arith, foreign-le-busy i fs)

  pub busy-cancel_flights :
      (i : ℕ) (fs : List (Flight File)) → busy (cancel_flights i fs) ≡ foreign i fs
  unfolding cancel_flights
  busy-cancel_flights i [] = refl
  busy-cancel_flights i (f ∷ fs) = ground (arith, busy-cancel_flights i fs)

  pub count-take_flight :
      (test : Flight File → Bool) (k : ℕ) (fs : List (Flight File)) (f : Flight File)
      (rest : List (Flight File))
      → take_flight k fs ≡ some (f, rest)
      → count test fs ≡ bit (test f) + count test rest
  unfolding take_flight
  count-take_flight test k [] f rest h = absurd (ground (arith, h))
  count-take_flight test zero (g ∷ fs) f rest h = ground (arith, h)
  count-take_flight test (suc k) (g ∷ fs) f rest h = elim (Option-cases (take_flight k fs)) [
    | inl e ↦ absurd (ground (arith, h, e))
    | inr ((x, others), e) ↦ ground (arith, h, e, count-take_flight test k fs x others e)
  ]

module _ {File Name : Type 0} ⦃ops : FileOps File⦄ ⦃names : Eq Name⦄ where
  pub record IsFresh (r : IndexRoot File Name) : Type 0 where
    pub cached : IsCached r
    pub idle : r.idle ≡ false
    pub alive : r.cancelled ≡ false

  abbrev pub AllFresh : List (IndexRoot File Name) → Type 0
  AllFresh [] = Unit {0}
  AllFresh (r ∷ rs) = IsFresh r × AllFresh rs

  -- The notifier works on the current root `r`: at most one call is in flight that is not cancelled,
  -- or the idle source is there, and none for another root.
  pub record IsAt (n : FileNotifier File Name) (r : IndexRoot File Name) : Type 0 where
    pub running : n.stopped ≡ false
    pub token : n.cancellable ≡ some r.id
    pub alive : r.cancelled ≡ false
    pub cached : IsCached r
    pub reading : r.idle ≡ true → r.has_cursor ≡ true
    pub single : busy n.flights + bit r.idle ≤ 1
    pub owned : foreign r.id n.flights ≡ 0
    pub at_rest : n.active ≡ false → busy n.flights ≡ 0

  abbrev pub IsCurrent : FileNotifier File Name → Option (IndexRoot File Name) → Type 0
  IsCurrent n none =
      (busy n.flights ≡ 0)
      × (n.stopped ≡ false → (n.pending_index_roots ≡ []) × (n.monitor_enabled ≡ true))
  IsCurrent n (some r) = IsAt n r

  pub record IsSound (n : FileNotifier File Name) : Type 0 where
    pub fresh : AllFresh n.pending_index_roots
    pub current : IsCurrent n n.current_index_root

  -- `n` with other fields than those that these predicates read
  abbrev pub framed :
      List (IndexRoot File Name)
      → Option (IndexRoot File Name)
      → ℕ
      → List (Output File)
      → FileNotifier File Name
      → FileNotifier File Name
  framed rs o id outputs n = record n {
    pending_index_roots = rs;
    current_index_root = o;
    next_id = id;
    outputs = outputs;
  }

  pub framed-IsAt :
      (rs : List (IndexRoot File Name)) (o : Option (IndexRoot File Name)) (id : ℕ)
      (outputs : List (Output File)) (n : FileNotifier File Name) (r : IndexRoot File Name)
      → IsAt n r
      → IsAt (framed rs o id outputs n) r
  framed-IsAt rs o id outputs n r h = record {
    running = h.running;
    token = h.token;
    alive = h.alive;
    cached = h.cached;
    reading = h.reading;
    single = h.single;
    owned = h.owned;
    at_rest = h.at_rest;
  }

  pub new-IsFresh :
      (id : ℕ) (f : File) (flags : ℕ) (b : Bool)
      → IsFresh (index_root_new {Name = Name} id f flags b)
  unfolding lookup
  new-IsFresh id f flags b = record {
    cached = record { queued = λ g. refl; own = λ g d l. absurd (ground (arith, l)) };
    idle = refl;
    alive = refl;
  }

  pub add_root-AllFresh :
      (b : Bool) (r : IndexRoot File Name) (rs : List (IndexRoot File Name))
      → IsFresh r
      → AllFresh rs
      → AllFresh (add_root b r rs)
  add_root-AllFresh true r rs h k = (h, k)
  add_root-AllFresh false r [] h k = (h, tt)
  add_root-AllFresh false r (x ∷ rs) h k = (k.0, add_root-AllFresh false r rs h k.1)

  -- a call for a root, where nothing is in flight
  pub launch-IsSound :
      (c : Callback File) (r : IndexRoot File Name) (n : FileNotifier File Name)
      → AllFresh n.pending_index_roots
      → IsFresh r
      → n.stopped ≡ false
      → n.cancellable ≡ some r.id
      → n.active ≡ true
      → busy n.flights ≡ 0
      → IsSound (launch c r n)
  launch-IsSound c r n fresh h running token active none_busy =
      let flight : Flight File = record { root = r.id; callback = c; cancelled = r.cancelled } in
      let one : busy (n.flights ++ flight ∷ []) ≡ 1 =
        ground (arith, count-append (λ f. not f.cancelled) n.flights (flight ∷ []), h.alive) in
      record {
        fresh = fresh;
        current = record {
          running = running;
          token = token;
          alive = h.alive;
          cached = h.cached;
          reading = λ e. absurd (ground (arith, e, h.idle));
          single = ground (arith, one, h.idle);
          owned = ground (
            arith,
            count-append (λ f. not f.cancelled && not (nat_eq f.root r.id)) n.flights (flight ∷ []),
            foreign-le-busy r.id n.flights,
            nat_eq_refl r.id,
          );
          at_rest = λ e. absurd (ground (arith, e, active));
        };
      }

  -- what notifier_check_next_root needs before its loop
  pub record IsReady (n : FileNotifier File Name) : Type 0 where
    pub running : n.stopped ≡ false
    pub none_busy : busy n.flights ≡ 0

  query_with-IsSound :
      (ignored preserved : Bool) (r : IndexRoot File Name) (rs : List (IndexRoot File Name))
      (n : FileNotifier File Name)
      → IsFresh r
      → AllFresh rs
      → n.cancellable ≡ some r.id
      → n.pending_index_roots ≡ rs
      → IsReady n
      → ((m : FileNotifier File Name)
          → IsReady m
          → m.current_index_root ≡ none
          → IsSound (next_root rs m))
      → IsSound (
          if (query_with ignored preserved r n).0
          then (query_with ignored preserved r n).1
          else next_root rs
              (record (query_with ignored preserved r n).1 { current_index_root = none }))
  query_with-IsSound false preserved r rs n h fresh token pending ready later =
      launch-IsSound query_execute r
        (emit (directory_started r.root ∷ []) (record n { active = true }))
        (subst AllFresh (sym pending) fresh) h ready.running token refl ready.none_busy
  query_with-IsSound true true r rs n h fresh token pending ready later =
      later (record n { current_index_root = none })
        (record { running = ready.running; none_busy = ready.none_busy }) refl
  query_with-IsSound true false r rs n h fresh token pending ready later =
      later (emit (file_deleted r.root true ∷ []) (record n { current_index_root = none }))
        (record { running = ready.running; none_busy = ready.none_busy }) refl

  pub IsSound-if :
      (b : Bool) (n m : FileNotifier File Name)
      → (b ≡ true → IsSound n)
      → (b ≡ false → IsSound m)
      → IsSound (if b then n else m)
  IsSound-if true n m h k = h refl
  IsSound-if false n m h k = k refl

  -- no root is left
  done-IsSound :
      (n : FileNotifier File Name)
      → n.pending_index_roots ≡ []
      → busy n.flights ≡ 0
      → n.current_index_root ≡ none
      → n.monitor_enabled ≡ true
      → IsSound n
  done-IsSound n pending none_busy empty enabled = record {
    fresh = subst AllFresh (sym pending) tt;
    current = subst (IsCurrent n) (sym empty) (none_busy, λ e. (pending, enabled));
  }

  pub next_root-IsSound :
      (rs : List (IndexRoot File Name)) (n : FileNotifier File Name)
      → AllFresh rs
      → IsReady n
      → n.current_index_root ≡ none
      → IsSound (next_root rs n)
  unfolding next_root
  next_root-IsSound [] n fresh ready empty =
      let m = emit (finished ∷ []) (record n { pending_index_roots = [] }) in
      let k = emit (monitor_set_enabled true ∷ []) (record m { monitor_enabled = true }) in
      IsSound-if n.monitor_enabled m k (λ e. done-IsSound m refl ready.none_busy empty e)
        (λ e. done-IsSound k refl ready.none_busy empty refl)
  next_root-IsSound (r ∷ rs) n fresh ready empty =
      query_with-IsSound (flag_ignore r.flags) (flag_preserve r.flags) r rs
        (record n {
          cancellable = some r.id;
          pending_index_roots = rs;
          current_index_root = some r;
        })
        fresh.0 fresh.1 refl refl (record { running = ready.running; none_busy = ready.none_busy })
        (λ m k empty'. next_root-IsSound rs m fresh.1 k empty')

  pub check_next_root-IsSound :
      (n : FileNotifier File Name)
      → AllFresh n.pending_index_roots
      → IsReady n
      → IsSound (check_next_root n)
  unfolding check_next_root
  check_next_root-IsSound n fresh ready =
      IsSound-if n.stopped n
        (next_root n.pending_index_roots (record n { current_index_root = none }))
        (λ e. absurd (ground (arith, e, ready.running)))
        (λ e.
          next_root-IsSound n.pending_index_roots (record n { current_index_root = none }) fresh
            (record { running = ready.running; none_busy = ready.none_busy }) refl)

  -- what is known of a notifier that gets another root
  abbrev Goes : FileNotifier File Name → Option (IndexRoot File Name) → Type 0
  Goes n none = busy n.flights ≡ 0
  Goes n (some r) = IsAt n r

  framed-Goes :
      (rs : List (IndexRoot File Name)) (id : ℕ) (n : FileNotifier File Name)
      (o : Option (IndexRoot File Name))
      → IsCurrent n o
      → Goes (record n { pending_index_roots = rs; next_id = id }) o
  framed-Goes rs id n none h = h.0
  framed-Goes rs id n (some r) h = framed-IsAt rs n.current_index_root id n.outputs n r h

  -- another root is added, and checked at once where there is no current one
  pub added-IsSound :
      (o : Option (IndexRoot File Name)) (n : FileNotifier File Name)
      → AllFresh n.pending_index_roots
      → n.current_index_root ≡ o
      → Goes n o
      → IsSound (if is_some o then n else check_next_root n)
  unfolding check_next_root
  added-IsSound none n fresh e h =
      IsSound-if n.stopped n
        (next_root n.pending_index_roots (record n { current_index_root = none }))
        (λ stopped. record {
          fresh = fresh;
          current =
              subst (IsCurrent n) (sym e) (h, λ running. absurd (ground (arith, stopped, running)));
        })
        (λ running.
          next_root-IsSound n.pending_index_roots (record n { current_index_root = none }) fresh
            (record { running = running; none_busy = h }) refl)
  added-IsSound (some r) n fresh e h = record {
    fresh = fresh;
    current = subst (IsCurrent n) (sym e) h;
  }

  pub queue_root-IsSound :
      (f : File) (flags : ℕ) (b : Bool) (n : FileNotifier File Name)
      → IsSound n
      → IsSound (queue_root f flags b n)
  unfolding queue_root
  queue_root-IsSound f flags b n h =
      let m = record n {
        pending_index_roots =
            add_root (flag_priority flags) (index_root_new n.next_id f flags b)
              n.pending_index_roots;
        next_id = suc n.next_id;
      } in
      added-IsSound n.current_index_root m
        (add_root-AllFresh (flag_priority flags) (index_root_new n.next_id f flags b)
          n.pending_index_roots (new-IsFresh n.next_id f flags b) h.fresh)
        refl (framed-Goes m.pending_index_roots m.next_id n n.current_index_root h.current)
