-- ===== src/MinerFs/Queue/Takes.antt =====
-- item_queue_get_next_file on a state whose links hold.
use tracker_miners.Base.Options.{bind_some, some_inj}
use tracker_miners.Base.{
  ℕ, ◌+◌, ◌≡◌, refl, sym, ap, subst, ◌∙◌, inl, inr, Option, none, some, Option-cases, List, [], ◌∷◌,
  arith, nat_eq_iff, count, Table, lookup, lookup-remove_key, length, is_some, insert,
  lookup-insert, ◌-◌,
}
use tracker_miners.Base.Files.{FileOps, file_Eq}
use tracker_miners.PriorityQueue.{Node}
use tracker_miners.PriorityQueue.Groups.{Group, nodes}
use tracker_miners.PriorityQueue.Neighbours.{nodes-shorten}
use tracker_miners.PriorityQueue.Pop.{pop_group}
use tracker_miners.MinerFs.{QueueEvent}
use tracker_miners.MinerFs.Queue.{Item, MinerFs, delete_node, queue_event_free}
use tracker_miners.MinerFs.Queue.Taking.{
  maybe_remove_file_event_node, without_first, take_item, item_queue_get_next_file,
}
use tracker_miners.MinerFs.Queue.Frees.{
  times, queue_of, of_root, queue_event_free-Freed, queue_event_free-IsTable,
}
use tracker_miners.MinerFs.Queue.Linked.{at_link, IsIndexed, IsLinked}

module _ {File : Type 0} ⦃ops : FileOps File⦄ where
  IsIndexed-first :
      (n : Node (Item File)) (ns : List (Node (Item File))) (by_file : Table File ℕ)
      → IsIndexed (n ∷ ns) by_file
      → IsIndexed ns (maybe_remove_file_event_node n.link n.elem.event by_file)
  IsIndexed-first n ns by_file h f l k = elim (Option-cases (lookup n.elem.event.file by_file)) [
    | inl never ↦ ground (arith, h f l, k, never, ops.eq.same_iff n.elem.event.file f)
    | inr (m, known) ↦ ground (
      arith,
      h f l,
      k,
      known,
      ops.eq.same_iff n.elem.event.file f,
      nat_eq_iff n.link l,
      nat_eq_iff m n.link,
      lookup-remove_key n.elem.event.file f by_file,
    )
  ]

  -- after the first event of the queue is out
  without_first-IsLinked :
      (n : Node (Item File)) (items : List (Group (Item File))) (fs : MinerFs File)
      (roots : Table File (List ℕ))
      → nodes fs.items ≡ n ∷ nodes items
      → queue_event_free n fs.roots_to_notify ≡ some roots
      → ((r : File) (l : ℕ)
          → times l (queue_of r roots) + count (of_root r l) (n ∷ [])
            ≡ times l (queue_of r fs.roots_to_notify))
      → IsLinked fs
      → IsLinked (without_first n items fs roots)
  without_first-IsLinked n items fs roots e freed c s = record {
    links = record {
      fresh = λ l k. ground (arith, s.links.fresh l k, ap (count (at_link l)) e);
      distinct = λ l. ground (arith, s.links.distinct l, ap (count (at_link l)) e);
    };
    rooted = λ r l. ground (arith, c r l, s.rooted r l, ap (count (of_root r l)) e);
    indexed =
        IsIndexed-first n (nodes items) fs.items_by_file
          (subst (λ ns. IsIndexed ns fs.items_by_file) e s.indexed);
    unique = queue_event_free-IsTable n fs.roots_to_notify roots freed s.unique;
  }

  queue_event_free-registered :
      (n : Node (Item File)) (roots after : Table File (List ℕ)) (r : File)
      → queue_event_free n roots ≡ some after
      → is_some (lookup r after) ≡ is_some (lookup r roots)
  unfolding queue_event_free
  queue_event_free-registered n roots after r e = elim (Option-cases n.elem.root) [
    | inl none_root ↦
        ap (λ t. is_some (lookup r t)) (some_inj after roots (ground (arith, e, none_root)))
    | inr (s, f) ↦ elim (Option-cases (lookup s roots)) [
      | inl missing ↦ absurd (ground (arith, e, f, missing))
      | inr (q, g) ↦ elim (Option-cases (delete_node n.link q)) [
        | inl lost ↦ absurd (ground (arith, e, f, g, lost))
        | inr (rest, d) ↦
            ap (λ t. is_some (lookup r t))
              (some_inj after (insert s rest roots) (ground (arith, e, f, g, d)))
            ∙ ground (arith, lookup-insert s r rest roots, g, ops.eq.same_iff s r)
      ]
    ]
  ]

  -- What taking an event does: the queue is shorter, and the same roots wait to be signalled.
  abbrev pub Takes : MinerFs File → Type 0
  Takes fs =
      (e : Option (QueueEvent File)) × (gs : MinerFs File) × (item_queue_get_next_file fs
        ≡ some (e, gs))
      × IsLinked gs
      × (length (nodes gs.items) ≡ length (nodes fs.items) - 1)
      × ((r : File) → is_some (lookup r gs.roots_to_notify) ≡ is_some (lookup r fs.roots_to_notify))

  take_popped :
      (fs : MinerFs File) (items : List (Group (Item File)))
      → fs.items ≡ items
      → IsLinked fs
      → Takes fs
  unfolding item_queue_get_next_file
  take_popped fs [] e s = (
    none,
    fs,
    ap (λ i. take_item (pop_group i).0 (pop_group i).1 fs) e,
    s,
    ground (arith, ap (λ i. length (nodes i)) e),
    λ r. refl,
  )
  take_popped fs (g ∷ gs) e s =
      let first = ap nodes e ∙ ap (◌∷◌ g.first) (sym (nodes-shorten g.priority g.others gs)) in
      let (roots, freed, c) =
        queue_event_free-Freed g.first fs.roots_to_notify
          (λ r l. ground (arith, s.rooted r l, ap (count (of_root r l)) first)) in
      (
        some g.first.elem.event,
        without_first g.first (pop_group (g ∷ gs)).1 fs roots,
        ap (λ i. take_item (pop_group i).0 (pop_group i).1 fs) e ∙ bind_some _ _ roots _ freed refl,
        without_first-IsLinked g.first (pop_group (g ∷ gs)).1 fs roots first freed c s,
        omega (arith, ap length first),
        λ r. queue_event_free-registered g.first fs.roots_to_notify roots r freed,
      )

  pub item_queue_get_next_file-Takes : (fs : MinerFs File) → IsLinked fs → Takes fs
  item_queue_get_next_file-Takes fs s = take_popped fs fs.items refl s
