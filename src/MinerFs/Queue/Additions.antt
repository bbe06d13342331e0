-- ===== src/MinerFs/Queue/Additions.antt =====
-- The links between the queue, the table of files and the roots' queues, where an event is added.
use tracker_miners.Base.UniqueKeys.{IsTable, insert-IsTable}
use tracker_miners.Base.{
  ℕ, ◌+◌, ◌≡◌, Bool, ◌&&◌, inl, inr, Option, Option-cases, List, [], ◌∷◌, arith, nat_eq,
  nat_eq_refl, if◌then◌else◌, count, Table, lookup, lookup-insert,
}
use tracker_miners.Base.Int.{ℤ}
use tracker_miners.Base.Files.{FileOps, file_Eq}
use tracker_miners.PriorityQueue.{Node}
use tracker_miners.PriorityQueue.Groups.{nodes}
use tracker_miners.MinerFs.{QueueEvent}
use tracker_miners.MinerFs.Queue.{Item, MinerFs, target, assign_root_node, add_event}
use tracker_miners.MinerFs.Queue.Counts.{count-add_to_groups}
use tracker_miners.MinerFs.Queue.Frees.{times, queue_of, is_root, of_root, queue_of-insert}
use tracker_miners.MinerFs.Queue.Linked.{at_link, of_file, IsRooted, IsLinked}

module _ {File : Type 0} ⦃ops : FileOps File⦄ where
  assign_root_node-rooted :
      (get_root : File → Option File) (e : QueueEvent File) (next : ℕ)
      (ns : List (Node (Item File))) (roots : Table File (List ℕ))
      → IsRooted ns roots
      → (r : File) (l : ℕ)
      → times l (queue_of r (assign_root_node get_root e next roots).1)
        ≡ (if nat_eq next l && is_root r (assign_root_node get_root e next roots).0 then 1 else 0)
          + count (of_root r l) ns
  unfolding assign_root_node
  assign_root_node-rooted get_root e next ns roots h r l =
      elim (Option-cases (get_root (target e))) [
        | inl no_root ↦ ground (arith, no_root, h r l)
        | inr (s, found) ↦ elim (Option-cases (lookup s roots)) [
          | inl missing ↦ ground (
            arith,
            found,
            missing,
            h r l,
            queue_of-insert s r (next ∷ []) roots,
            ops.eq.same_iff s r,
          )
          | inr (q, known) ↦ ground (
            arith,
            found,
            known,
            h r l,
            queue_of-insert s r (next ∷ q) roots,
            ops.eq.same_iff s r,
          )
        ]
      ]

  assign_root_node-IsTable :
      (get_root : File → Option File) (e : QueueEvent File) (next : ℕ) (roots : Table File (List ℕ))
      → IsTable roots
      → IsTable (assign_root_node get_root e next roots).1
  unfolding assign_root_node
  assign_root_node-IsTable get_root e next roots h = elim (Option-cases (get_root (target e))) [
    | inl no_root ↦ ground (arith, no_root, h)
    | inr (s, found) ↦ elim (Option-cases (lookup s roots)) [
      | inl missing ↦ ground (arith, found, missing, insert-IsTable s (next ∷ []) roots h)
      | inr (q, known) ↦ ground (arith, found, known, insert-IsTable s (next ∷ q) roots h)
    ]
  ]

  pub add_event-IsLinked :
      (get_root : File → Option File) (priority : ℤ) (e : QueueEvent File) (fs : MinerFs File)
      → IsLinked fs
      → IsLinked (add_event get_root priority e fs)
  unfolding add_event
  add_event-IsLinked get_root priority e fs s =
      let ns = nodes fs.items in
      let assigned = assign_root_node get_root e fs.next_link fs.roots_to_notify in
      let n : Node (Item File) = record {
        link = fs.next_link;
        elem = record { event = e; root = assigned.0 };
      } in
      let added =
        λ (test : Node (Item File) → Bool). count-add_to_groups test priority n fs.items in
      record {
        links = record {
          fresh = λ l k. ground (arith, added (at_link l), s.links.fresh l);
          distinct = λ l. ground (arith, added (at_link l), s.links.distinct l, s.links.fresh l);
        };
        rooted = λ r l. ground (
          arith,
          added (of_root r l),
          assign_root_node-rooted get_root e fs.next_link ns fs.roots_to_notify s.rooted r l,
        );
        indexed = λ f l k. ground (
          arith,
          k,
          added (of_file f l),
          lookup-insert e.file f fs.next_link fs.items_by_file,
          s.indexed f l,
          nat_eq_refl fs.next_link,
        );
        unique = assign_root_node-IsTable get_root e fs.next_link fs.roots_to_notify s.unique;
      }
