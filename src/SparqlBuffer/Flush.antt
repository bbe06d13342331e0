-- ===== src/SparqlBuffer/Flush.antt =====
-- tracker_sparql_buffer_flush on a consistent buffer.

use tracker_miners.Base.{
  ℕ, ◌≡◌, ◌≢◌, ◌⊎◌, refl, ◌∙◌, ap, Bool, true, false, Option, none, some, List, [], ◌∷◌, Eq, arith,
  ltb, Bool-cases, inl, inr, nil_of_length,
}
use tracker_miners.TaskPool.{find}
use tracker_miners.TaskPool.Index.{find-has_file, has_file}
use tracker_miners.SparqlBuffer.{SparqlBuffer, list_of, start_update, flush_tasks, flush}
use tracker_miners.SparqlBuffer.Shape.{IsConsistent, start_update-IsConsistent}

module _ {File R : Type 0} ⦃e : Eq File⦄ where
  -- What a flush may do: nothing, or to send all that the buffer holds.
  abbrev pub Refused : SparqlBuffer File R → SparqlBuffer File R × Bool → Type 0
  Refused b (c, done) = (done ≡ false) × (c ≡ b) × ((b.n_updates ≡ 1) ⊎ (b.pool.tasks ≡ []))

  abbrev pub Sent : SparqlBuffer File R → SparqlBuffer File R × Bool → Type 0
  Sent b (c, done) =
      (done ≡ true)
      × (b.n_updates ≡ 0)
      × (b.pool.tasks ≢ [])
      × (c.pool.tasks ≡ [])
      × ((f : File) → find c.pool f ≡ false)
      × (c.in_flight ≡ record { tasks = b.pool.tasks; batch = list_of b.batch } ∷ [])

  flush_tasks-Sent :
      (b : SparqlBuffer File R) (ts : Option (List ℕ))
      → b.tasks ≡ ts
      → b.n_updates ≡ 0
      → IsConsistent b
      → Refused b (flush_tasks b ts) ⊎ Sent b (flush_tasks b ts)
  unfolding flush_tasks
  flush_tasks-Sent b none h z v = inl (refl, refl, inr (v.sound.pooled ∙ ap list_of h))
  flush_tasks-Sent b (some []) h z v = absurd (v.sound.nonempty h)
  flush_tasks-Sent b (some (t ∷ ts)) h z v =
      let after : IsConsistent (start_update b (t ∷ ts)) =
        start_update-IsConsistent b (t ∷ ts) h z v.sound in
      let held : b.pool.tasks ≡ t ∷ ts = v.sound.pooled ∙ ap list_of h in
      let idle : b.in_flight ≡ [] = nil_of_length b.in_flight (v.sound.counted ∙ z) in
      inr (
        refl,
        z,
        (λ x. ground (arith, x, held)),
        after.sound.pooled,
        (λ f.
            find-has_file (start_update b (t ∷ ts)).heap (start_update b (t ∷ ts)).pool f
              after.sound.indexed
            ∙ ap (λ l. has_file b.heap l f) after.sound.pooled),
        ground (arith, idle, held),
      )

  -- A flush of a consistent buffer either does nothing, and then an update is in flight or the pool
  -- is empty, or it sends one update with all the tasks of the pool and all of the batch, and then no
  -- update was in flight, the pool was not empty, and it is now, with no task under any file.
  pub flush-Sent :
      (b : SparqlBuffer File R) → IsConsistent b → Refused b (flush b) ⊎ Sent b (flush b)
  unfolding flush
  flush-Sent b v = elim (Bool-cases (ltb 0 b.n_updates)) [
    | inl y ↦ rw y (inl (refl, refl, inl (ground (arith, y, v.sound.one_update))))
    | inr n ↦ rw n (flush_tasks-Sent b b.tasks refl (ground (arith, n)) v)
  ]
