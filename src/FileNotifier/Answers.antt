-- ===== src/FileNotifier/Answers.antt =====
-- The callbacks of the calls in flight, and the idle source that reads the cursor.
use tracker_miners.Base.Options.{◌>>=◌}
use tracker_miners.Base.{
  ℕ, suc, ◌+◌, ◌≡◌, refl, sym, subst, ◌∙◌, inl, inr, Bool, true, false, not, ◌&&◌, Option, none,
  some, List, [], ◌∷◌, arith, nat_eq, length, if◌then◌else◌, Bool-cases, Eq,
}
use tracker_miners.Base.Files.{FileOps}
use tracker_miners.FileNotifier.{Surroundings, IndexRoot, Output}
use tracker_miners.FileNotifier.Cached.{bit, IsNext, IsNext-refl}
use tracker_miners.FileNotifier.Crawl.{handle_file_from_filesystem, handle_children, handle_rows}
use tracker_miners.FileNotifier.Crawled.{filesystem-IsNext, children-IsNext, rows-IsNext}
use tracker_miners.FileNotifier.Roots.{
  FileNotifier, Flight, Callback, query_execute, query_root_info, enumerate_children, next_files,
  Answer, take_flight, cursor_with, launch, emit, held, continue_root, query_execute_cb,
  query_root_info_cb, enumerate_children_cb, enumerator_next_files_cb, run_callback, root_at,
  answer_flight, directory_finished_output, n_enumerator_batch_items,
}
use tracker_miners.FileNotifier.Events.{
  Batch, BatchEnd, batch_full, cursor_end, cursor_error, is_finished, end_cursor, handle_cursor,
}
use tracker_miners.FileNotifier.Sound.{
  busy, foreign, foreign-le-busy, count-take_flight, IsAt, IsCurrent, IsSound, launch-IsSound,
}
use tracker_miners.FileNotifier.Continues.{
  Moves, Moves-if, IsResting, held-IsSound, idle-IsSound, continue_root-Moves,
}

module _ {File Name : Type 0} ⦃ops : FileOps File⦄ ⦃names : Eq Name⦄ where
  -- what a callback finds that runs for the current root `r`
  pub record IsAnswered (n : FileNotifier File Name) (r : IndexRoot File Name) : Type 0 where
    pub resting : IsResting n r
    pub idle : r.idle ≡ false
    pub active : n.active ≡ true
    pub at : n.current_index_root ≡ some r

  next-IsResting :
      (n : FileNotifier File Name) (r s : IndexRoot File Name)
      → IsNext r s
      → IsResting n r
      → IsResting n s
  next-IsResting n r s next h = record {
    fresh = h.fresh;
    running = h.running;
    token = ground (arith, h.token, next.id);
    alive = next.cancelled ∙ h.alive;
    cached = next.cached;
    reading = λ e. ground (arith, h.reading, next.idle, next.has_cursor, e);
    none_busy = h.none_busy;
  }

  next-launch :
      (c : Callback File) (n : FileNotifier File Name) (r s : IndexRoot File Name)
      → IsNext r s
      → IsAnswered n r
      → IsSound (launch c s n)
  next-launch c n r s next h =
      let rest = next-IsResting n r s next h.resting in
      launch-IsSound c s n rest.fresh
        (record { cached = rest.cached; idle = next.idle ∙ h.idle; alive = rest.alive })
        rest.running rest.token h.active rest.none_busy

  cursor_with-IsSound :
      (high : Bool) (r : IndexRoot File Name) (n : FileNotifier File Name)
      → n.high_water ≡ high
      → r.has_cursor ≡ true
      → IsResting n r
      → IsSound (cursor_with true high r n).1
  cursor_with-IsSound true r n high cursor h = held-IsSound r n high h
  cursor_with-IsSound false r n high cursor h = idle-IsSound r n cursor h

  query_execute-Moves :
      (a : Answer File) (r : IndexRoot File Name) (n : FileNotifier File Name)
      → IsAnswered n r
      → Moves (query_execute_cb a r n)
  unfolding query_execute_cb
  query_execute-Moves a r n h =
      let k = h.resting in
      let r' = record r { has_cursor = true } in
      let m = emit (directory_finished_output r ∷ []) n in
      Moves-if a.has_cursor (some (cursor_with true n.high_water r' n).1) (some m)
        (λ e. (
          (cursor_with true n.high_water r' n).1,
          refl,
          cursor_with-IsSound n.high_water r' n refl refl (record {
            fresh = k.fresh;
            running = k.running;
            token = k.token;
            alive = k.alive;
            cached = record { queued = k.cached.queued; own = k.cached.own };
            reading = λ e. refl;
            none_busy = k.none_busy;
          }),
        ))
        (λ e. (
          m,
          refl,
          record {
            fresh = k.fresh;
            current = subst (IsCurrent m) (sym h.at) (record {
              running = k.running;
              token = k.token;
              alive = k.alive;
              cached = k.cached;
              reading = k.reading;
              single = ground (arith, k.none_busy, h.idle);
              owned = ground (arith, foreign-le-busy r.id n.flights, k.none_busy);
              at_rest = λ e. k.none_busy;
            });
          },
        ))

  emitted-IsResting :
      (n : FileNotifier File Name) (r : IndexRoot File Name) (outputs : List (Output File))
      → IsResting n r
      → IsResting (emit outputs n) r
  emitted-IsResting n r outputs h = record {
    fresh = h.fresh;
    running = h.running;
    token = h.token;
    alive = h.alive;
    cached = h.cached;
    reading = h.reading;
    none_busy = h.none_busy;
  }

  query_root_info-Moves :
      (env : Surroundings File Name) (f : File) (a : Answer File) (r : IndexRoot File Name)
      (n : FileNotifier File Name)
      → IsAnswered n r
      → Moves (query_root_info_cb env f a r n)
  unfolding query_root_info_cb
  query_root_info-Moves env f a r n h =
      let (s, outputs) = handle_file_from_filesystem env r f a.info in
      let next = filesystem-IsNext env r f a.info h.resting.cached in
      Moves-if a.failed (continue_root env r n)
        (some (launch (enumerate_children f) s (emit outputs n)))
        (λ e. continue_root-Moves env r n h.resting)
        (λ e. (
          launch (enumerate_children f) s (emit outputs n),
          refl,
          next-launch (enumerate_children f) (emit outputs n) r s next (record {
            resting = emitted-IsResting n r outputs h.resting;
            idle = h.idle;
            active = h.active;
            at = h.at;
          }),
        ))

  enumerate_children-Moves :
      (env : Surroundings File Name) (f : File) (a : Answer File) (r : IndexRoot File Name)
      (n : FileNotifier File Name)
      → IsAnswered n r
      → Moves (enumerate_children_cb env f a r n)
  unfolding enumerate_children_cb
  enumerate_children-Moves env f a r n h =
      Moves-if a.failed (continue_root env r n) (some (launch (next_files f) r n))
        (λ e. continue_root-Moves env r n h.resting)
        (λ e. (
          launch (next_files f) r n,
          refl,
          next-launch (next_files f) n r r (IsNext-refl r h.resting.cached) h,
        ))

  next_files-Moves :
      (env : Surroundings File Name) (f : File) (a : Answer File) (r : IndexRoot File Name)
      (n : FileNotifier File Name)
      → IsAnswered n r
      → Moves (enumerator_next_files_cb env f a r n)
  unfolding enumerator_next_files_cb
  next_files-Moves env f a r n h =
      let (s, outputs) = handle_children env a.infos r in
      let next = children-IsNext env a.infos r h.resting.cached in
      let m = emit outputs n in
      let more = nat_eq (length a.infos) n_enumerator_batch_items in
      let emitted = emitted-IsResting n r outputs h.resting in
      Moves-if a.failed (continue_root env r n)
        (if more then some (launch (next_files f) s m) else continue_root env s m)
        (λ e. continue_root-Moves env r n h.resting)
        (λ e.
          Moves-if more (some (launch (next_files f) s m)) (continue_root env s m)
            (λ e. (
              launch (next_files f) s m,
              refl,
              next-launch (next_files f) m r s next
                  (record { resting = emitted; idle = h.idle; active = h.active; at = h.at }),
            ))
            (λ e. continue_root-Moves env s m (next-IsResting m r s next emitted)))

  callback-Moves :
      (env : Surroundings File Name) (c : Callback File) (a : Answer File) (r : IndexRoot File Name)
      (n : FileNotifier File Name)
      → IsAnswered n r
      → Moves (run_callback env c a r n)
  callback-Moves env query_execute a r n h = query_execute-Moves a r n h
  callback-Moves env (query_root_info f) a r n h = query_root_info-Moves env f a r n h
  callback-Moves env (enumerate_children f) a r n h = enumerate_children-Moves env f a r n h
  callback-Moves env (next_files f) a r n h = next_files-Moves env f a r n h

  found-Moves :
      (b : Bool) (r : IndexRoot File Name)
      (k : IndexRoot File Name → Option (FileNotifier File Name))
      → b ≡ true
      → Moves (k r)
      → Moves ((if b then some r else none) >>= k)
  found-Moves true r k e h = h
  found-Moves false r k e h = absurd (ground (arith, e))

  -- a flight leaves that is cancelled
  left-IsCurrent :
      (n : FileNotifier File Name) (rest : List (Flight File)) (o : Option (IndexRoot File Name))
      → busy rest ≡ busy n.flights
      → ((i : ℕ) → foreign i rest ≡ foreign i n.flights)
      → IsCurrent n o
      → IsCurrent (record n { flights = rest }) o
  left-IsCurrent n rest none same others h = (same ∙ h.0, h.1)
  left-IsCurrent n rest (some r) same others h = record {
    running = h.running;
    token = h.token;
    alive = h.alive;
    cached = h.cached;
    reading = h.reading;
    single = ground (arith, h.single, same);
    owned = others r.id ∙ h.owned;
    at_rest = λ e. same ∙ h.at_rest e;
  }

  -- a flight is answered that is not cancelled: it is for the current root
  answered-Moves :
      (env : Surroundings File Name) (f : Flight File) (a : Answer File)
      (n : FileNotifier File Name) (rest : List (Flight File)) (o : Option (IndexRoot File Name))
      → IsSound n
      → busy n.flights ≡ suc (busy rest)
      → ((i : ℕ) → foreign i n.flights ≡ bit (not (nat_eq f.root i)) + foreign i rest)
      → n.current_index_root ≡ o
      → IsCurrent n o
      → Moves
          (root_at f.root o >>= λ r. run_callback env f.callback a r (record n { flights = rest }))
  answered-Moves env f a n rest none h one others at c = absurd (ground (arith, one, c.0))
  answered-Moves env f a n rest (some r) h one others at c =
      let m = record n { flights = rest } in
      found-Moves (nat_eq r.id f.root) r (λ x. run_callback env f.callback a x m)
        (ground (arith, others r.id, c.owned))
        (callback-Moves env f.callback a r m (record {
          resting = record {
            fresh = h.fresh;
            running = c.running;
            token = c.token;
            alive = c.alive;
            cached = c.cached;
            reading = c.reading;
            none_busy = ground (arith, c.single, one);
          };
          idle = ground (arith, c.single, one);
          active = elim (Bool-cases n.active) [
            | inl e ↦ e
            | inr e ↦ absurd (ground (arith, c.at_rest e, one))
          ];
          at = at;
        }))

  pub answer-Moves :
      (env : Surroundings File Name) (k : ℕ) (f : Flight File) (a : Answer File)
      (n : FileNotifier File Name) (rest : List (Flight File))
      → take_flight k n.flights ≡ some (f, rest)
      → IsSound n
      → Moves (answer_flight env f a (record n { flights = rest }))
  unfolding answer_flight
  answer-Moves env k f a n rest e h =
      let m = record n { flights = rest } in
      let all = count-take_flight (λ x. not x.cancelled) k n.flights f rest e in
      let others : (i : ℕ)
          → foreign i n.flights ≡ bit (not f.cancelled && not (nat_eq f.root i)) + foreign i rest =
        λ i.
          count-take_flight (λ x. not x.cancelled && not (nat_eq x.root i)) k n.flights f rest e in
      Moves-if f.cancelled (some m)
        (root_at f.root n.current_index_root >>= λ r. run_callback env f.callback a r m)
        (λ gone. (
          m,
          refl,
          record {
            fresh = h.fresh;
            current =
                left-IsCurrent n rest n.current_index_root (ground (arith, all, gone))
                  (λ i. ground (arith, others i, gone)) h.current;
          },
        ))
        (λ alive.
          answered-Moves env f a n rest n.current_index_root h (ground (arith, all, alive))
            (λ i. ground (arith, others i, alive)) refl h.current)

  -- the idle source of the current root has read rows into `s`
  ended-Moves :
      (env : Surroundings File Name) (ended : BatchEnd) (r s : IndexRoot File Name)
      (outputs : List (Output File)) (n : FileNotifier File Name)
      → IsNext r s
      → r.idle ≡ true
      → IsSound n
      → IsAt n r
      → Moves (
          let t = end_cursor ended s in
          let m = record (emit outputs n) { current_index_root = some t } in
          if is_finished ended
          then continue_root env (record t { idle = false }) m
          else if n.high_water
          then continue_root env (record t { idle = false }) (held m)
          else some m)
  ended-Moves env batch_full r s outputs n next idle h c =
      let m = record (emit outputs n) { current_index_root = some s } in
      Moves-if n.high_water (continue_root env (record s { idle = false }) (held m)) (some m)
        (λ high.
          continue_root-Moves env (record s { idle = false }) (held m)
            (record {
              fresh = h.fresh;
              running = c.running;
              token = ground (arith, c.token, next.id);
              alive = next.cancelled ∙ c.alive;
              cached = record { queued = next.cached.queued; own = next.cached.own };
              reading = λ e. absurd (ground (arith, e));
              none_busy = ground (arith, c.single, idle);
            }))
        (λ low. (
          m,
          refl,
          record {
            fresh = h.fresh;
            current = record {
              running = c.running;
              token = ground (arith, c.token, next.id);
              alive = next.cancelled ∙ c.alive;
              cached = next.cached;
              reading = λ e. next.has_cursor ∙ c.reading idle;
              single = ground (arith, c.single, next.idle, idle);
              owned = ground (arith, c.owned, next.id);
              at_rest = c.at_rest;
            };
          },
        ))
  ended-Moves env cursor_end r s outputs n next idle h c =
      let t = end_cursor cursor_end s in
      continue_root-Moves env (record t { idle = false })
        (record (emit outputs n) { current_index_root = some t })
        (record {
          fresh = h.fresh;
          running = c.running;
          token = ground (arith, c.token, next.id);
          alive = next.cancelled ∙ c.alive;
          cached = record { queued = next.cached.queued; own = next.cached.own };
          reading = λ e. absurd (ground (arith, e));
          none_busy = ground (arith, c.single, idle);
        })
  ended-Moves env cursor_error r s outputs n next idle h c =
      let t = end_cursor cursor_error s in
      continue_root-Moves env (record t { idle = false })
        (record (emit outputs n) { current_index_root = some t })
        (record {
          fresh = h.fresh;
          running = c.running;
          token = ground (arith, c.token, next.id);
          alive = next.cancelled ∙ c.alive;
          cached = record { queued = next.cached.queued; own = next.cached.own };
          reading = λ e. absurd (ground (arith, e));
          none_busy = ground (arith, c.single, idle);
        })

  pub handle_cursor-Moves :
      (env : Surroundings File Name) (batch : Batch File Name) (r : IndexRoot File Name)
      (n : FileNotifier File Name)
      → r.idle ≡ true
      → IsSound n
      → IsAt n r
      → Moves (handle_cursor env batch r n)
  unfolding handle_cursor
  handle_cursor-Moves env batch r n idle h c =
      let (s, outputs) = handle_rows env batch.rows r in
      ended-Moves env batch.ended r s outputs n (rows-IsNext env batch.rows r c.cached) idle h c
