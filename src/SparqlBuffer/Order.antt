-- ===== src/SparqlBuffer/Order.antt =====
-- What the calls of the buffer ask of the database, and what the database has answered for.
use Prim.Native.String.{String}
use mathlib.Core.List.{append_assoc, append-nil}
use tracker_miners.Base.{
  ℕ, ◌≡◌, refl, sym, ◌∙◌, ap, Bool, true, false, Option, none, some, List, [], ◌∷◌, ◌++◌, Eq, arith,
  if◌then◌else◌, ltb, Bool-cases, inl, inr,
}
use tracker_miners.SparqlBuffer.{
  Statement, delete_file, delete_file_content, delete_content, move_file, move_content, UriOps,
  BatchItem, add_resource, add_statement, UpdateBatchData, SparqlBuffer, default_graph,
  special_graphs, list_of, Call, deletes, deletes_content, moves, moves_content, logs_file,
  updates_attributes, logs_folder, flushes, answers, add_to_batch, push, push_content, push_graphs,
  log_statement, log_folder, log_attributes_update, flush_tasks, flush, log_file, batch_execute_cb,
  step, run,
}

-- the items of the updates in flight, oldest first
abbrev pub sent : {R : Type 0} → List (UpdateBatchData R) → List (BatchItem R)
sent [] = []
sent (u ∷ us) = u.batch ++ sent us

sent-append :
    {R : Type 0} (us : List (UpdateBatchData R)) (u : UpdateBatchData R)
    → sent (us ++ u ∷ []) ≡ sent us ++ u.batch
sent-append [] u = append-nil u.batch
sent-append (v ∷ us) u = rw (sent-append us u) (sym (append_assoc v.batch (sent us) u.batch))

-- what the database has not answered for yet
abbrev pub pending : {File R : Type 0} → SparqlBuffer File R → List (BatchItem R)
pending b = sent b.in_flight ++ list_of b.batch

-- the batch that the database answers for in a call
abbrev pub answered : {R : Type 0} → List (UpdateBatchData R) → List (BatchItem R)
answered [] = []
answered (u ∷ us) = u.batch

abbrev pub delivered : {File R : Type 0} → SparqlBuffer File R → Call File R → List (BatchItem R)
delivered b answers = answered b.in_flight
delivered b _ = []

abbrev pub content_items : {R : Type 0} → Option String → Option R → List (BatchItem R)
content_items (some g) (some r) = add_resource g r ∷ []
content_items (some g) none = []
content_items none r = []

abbrev pub graph_items : {R : Type 0} → List String → R → List (BatchItem R)
graph_items [] r = []
graph_items (g ∷ gs) r = add_resource g r ∷ graph_items gs r

module _ {File R : Type 0} (uris : UriOps File) where
  open uris use {get_uri, get_parent, get_display_basename}

  -- What a call asks of the database, in order.
  abbrev pub items : Call File R → List (BatchItem R)
  items (deletes f) = add_statement delete_file (("uri", get_uri f) ∷ []) ∷ []
  items (deletes_content f) = add_statement delete_content (("uri", get_uri f) ∷ []) ∷ []
  items (moves f g s) =
      add_statement move_file (
        ("sourceUri", get_uri f)
        ∷ ("destUri", get_uri g)
        ∷ ("newFilename", get_display_basename g)
        ∷ ("newParent", get_uri (get_parent g))
        ∷ ("newDataSource", s)
        ∷ [])
      ∷ []
  items (moves_content f g) =
      add_statement move_content (("sourceUri", get_uri f) ∷ ("destUri", get_uri g) ∷ []) ∷ []
  items (logs_file f c r x) =
      add_statement delete_file_content (("uri", get_uri f) ∷ [])
      ∷ add_resource default_graph r
      ∷ content_items c x
  items (updates_attributes f c r x) = content_items c x ++ add_resource default_graph r ∷ []
  items (logs_folder f root r x) =
      (if root then graph_items special_graphs x else [])
      ++ add_resource default_graph r ∷ add_resource default_graph x ∷ []
  items flushes = []
  items answers = []

  abbrev pub all_items : List (Call File R) → List (BatchItem R)
  all_items [] = []
  all_items (c ∷ cs) = items c ++ all_items cs

-- `c` is `b` with `l` added to the batch
pub record Extends {File R : Type 0} (b : SparqlBuffer File R) (l : List (BatchItem R))
    (c : SparqlBuffer File R) : Type 0 where
  pub batch : list_of c.batch ≡ list_of b.batch ++ l
  pub in_flight : c.in_flight ≡ b.in_flight

module _ {File R : Type 0} where
  pending-Extends :
      {b c : SparqlBuffer File R} {l : List (BatchItem R)}
      → Extends b l c
      → pending c ≡ pending b ++ l
  pending-Extends {b} {l = l} x =
      rw (x.batch, x.in_flight) (sym (append_assoc (sent b.in_flight) (list_of b.batch) l))

  Extends-trans :
      {b c d : SparqlBuffer File R} {l m : List (BatchItem R)}
      → Extends b l c
      → Extends c m d
      → Extends b (l ++ m) d
  Extends-trans {b} {l = l} {m = m} x y = record {
    batch = rw (y.batch, x.batch) (append_assoc (list_of b.batch) l m);
    in_flight = y.in_flight ∙ x.in_flight;
  }

module _ {File R : Type 0} ⦃e : Eq File⦄ where
  add_to_batch-Extends :
      (b : SparqlBuffer File R) (x : BatchItem R) → Extends b (x ∷ []) (add_to_batch b x)
  unfolding add_to_batch
  add_to_batch-Extends b x = record { batch = refl; in_flight = refl }

  push-Extends :
      (b : SparqlBuffer File R) (f : File) (g : String) (r : R)
      → Extends b (add_resource g r ∷ []) (push b f g r)
  unfolding push
  push-Extends b f g r = record { batch = refl; in_flight = refl }

  log_statement-Extends :
      (b : SparqlBuffer File R) (s : Statement) (args : List (String × String)) (f : File)
      → Extends b (add_statement s args ∷ []) (log_statement b s args f)
  unfolding log_statement
  log_statement-Extends b s args f = record { batch = refl; in_flight = refl }

  push_graphs-Extends :
      (b : SparqlBuffer File R) (f : File) (gs : List String) (r : R)
      → Extends b (graph_items gs r) (push_graphs b f gs r)
  unfolding push_graphs
  push_graphs-Extends b f [] r = record { batch = sym (append-nil _); in_flight = refl }
  push_graphs-Extends b f (g ∷ gs) r =
      Extends-trans (push-Extends b f g r) (push_graphs-Extends (push b f g r) f gs r)

  push_content-Extends :
      (b : SparqlBuffer File R) (f : File) (c : Option String) (x : Option R)
      → Extends b (content_items c x) (push_content b f c x)
  unfolding push_content
  push_content-Extends b f (some g) (some r) = push-Extends b f g r
  push_content-Extends b f (some g) none = record { batch = sym (append-nil _); in_flight = refl }
  push_content-Extends b f none x = record { batch = sym (append-nil _); in_flight = refl }

  pending-flush_tasks :
      (b : SparqlBuffer File R) (ts : Option (List ℕ)) → pending (flush_tasks b ts).0 ≡ pending b
  unfolding flush_tasks
  pending-flush_tasks b none = refl
  pending-flush_tasks b (some []) = refl
  pending-flush_tasks b (some (t ∷ ts)) =
      append-nil _ ∙ sent-append b.in_flight (record { tasks = t ∷ ts; batch = list_of b.batch })

  pending-flush : (b : SparqlBuffer File R) → pending (flush b).0 ≡ pending b
  unfolding flush
  pending-flush b = elim (Bool-cases (ltb 0 b.n_updates)) [
    | inl y ↦ rw y
    | inr n ↦ rw n (pending-flush_tasks b b.tasks)
  ]

  answered-batch_execute_cb :
      (b : SparqlBuffer File R) → answered b.in_flight ++ pending (batch_execute_cb b).0 ≡ pending b
  unfolding batch_execute_cb
  answered-batch_execute_cb b = go b.in_flight refl
    where
      go :
          (l : List (UpdateBatchData R))
          → b.in_flight ≡ l
          → answered b.in_flight ++ pending (batch_execute_cb b).0 ≡ pending b
      go [] h = rw (h, batch_execute_cb) (ground (arith, h))
      go (u ∷ us) h =
          rw (h, batch_execute_cb) (sym (append_assoc u.batch (sent us) (list_of b.batch)))

  -- a call that logs
  log_folder-Extends :
      (b : SparqlBuffer File R) (f : File) (root : Bool) (r x : R)
      → Extends b
          ((if root then graph_items special_graphs x else [])
            ++ add_resource default_graph r ∷ add_resource default_graph x ∷ [])
          (log_folder b f root r x)
  unfolding log_folder
  log_folder-Extends b f true r x =
      Extends-trans (push_graphs-Extends b f special_graphs x)
        (Extends-trans (push-Extends _ f default_graph r) (push-Extends _ f default_graph x))
  log_folder-Extends b f false r x =
      (Extends-trans (push-Extends b f default_graph r) (push-Extends _ f default_graph x))

module _ {File R : Type 0} ⦃e : Eq File⦄ (uris : UriOps File) where
  open uris use {get_uri, get_parent, get_display_basename}

  log_file-Extends :
      (b : SparqlBuffer File R) (f : File) (c : Option String) (r : R) (x : Option R)
      → Extends b (items uris (logs_file f c r x)) (log_file uris b f c r x)
  unfolding log_file
  log_file-Extends b f c r x =
      Extends-trans (add_to_batch-Extends b _)
        (Extends-trans (push-Extends _ f default_graph r) (push_content-Extends _ f c x))

  log_attributes_update-Extends :
      (b : SparqlBuffer File R) (f : File) (c : Option String) (r : R) (x : Option R)
      → Extends b (items uris (updates_attributes f c r x)) (log_attributes_update b f c r x)
  unfolding log_attributes_update
  log_attributes_update-Extends b f c r x =
      Extends-trans (push_content-Extends b f c x) (push-Extends _ f default_graph r)

  -- What the database has answered for in a call and what it has not are what it had not before,
  -- and what the call asks.
  pending-step :
      (b : SparqlBuffer File R) (c : Call File R)
      → delivered b c ++ pending (step uris b c) ≡ pending b ++ items uris c
  unfolding step
  pending-step b (deletes f) = pending-Extends (log_statement-Extends b delete_file _ f)
  pending-step b (deletes_content f) = pending-Extends (log_statement-Extends b delete_content _ f)
  pending-step b (moves f g s) = pending-Extends (log_statement-Extends b move_file _ g)
  pending-step b (moves_content f g) = pending-Extends (log_statement-Extends b move_content _ g)
  pending-step b (logs_file f c r x) = pending-Extends (log_file-Extends b f c r x)
  pending-step b (updates_attributes f c r x) =
      pending-Extends (log_attributes_update-Extends b f c r x)
  pending-step b (logs_folder f root r x) = pending-Extends (log_folder-Extends b f root r x)
  pending-step b flushes = pending-flush b ∙ sym (append-nil (pending b))
  pending-step b answers = answered-batch_execute_cb b ∙ sym (append-nil (pending b))

  -- What the database answers for over the calls.
  abbrev pub all_delivered : SparqlBuffer File R → List (Call File R) → List (BatchItem R)
  all_delivered b [] = []
  all_delivered b (c ∷ cs) = delivered b c ++ all_delivered (step uris b c) cs

  -- Over any calls, what the database has answered for, followed by what is in flight and what is
  -- still in the batch, is what was pending at first followed by what the calls asked for, in order:
  -- no item is lost, repeated or overtaken, however the flushes and the answers fall.
  pub all_delivered-pending :
      (b : SparqlBuffer File R) (cs : List (Call File R))
      → all_delivered b cs ++ pending (run uris b cs) ≡ pending b ++ all_items uris cs
  unfolding run
  all_delivered-pending b [] = sym (append-nil (pending b))
  all_delivered-pending b (c ∷ cs) =
      append_assoc (delivered b c) (all_delivered (step uris b c) cs)
        (pending (run uris (step uris b c) cs))
      ∙ ap (◌++◌ (delivered b c)) (all_delivered-pending (step uris b c) cs)
      ∙ sym (append_assoc (delivered b c) (pending (step uris b c)) (all_items uris cs))
      ∙ ap (λ l. l ++ all_items uris cs) (pending-step b c)
      ∙ append_assoc (pending b) (items uris c) (all_items uris cs)
