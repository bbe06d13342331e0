-- ===== src/MinerFs/Queue/Linked.antt =====
-- The links between the queue, the table of files and the roots' queues, and the changes that keep them.
use tracker_miners.Base.UniqueKeys.{IsTable}
use tracker_miners.Base.Options.{◌>>=◌}
use tracker_miners.Base.{
  ℕ, ◌+◌, ◌≤◌, ◌≡◌, refl, sym, ap, subst, Bool, ◌&&◌, Bool-cases, inl, inr, Option, some, List, [],
  ◌∷◌, arith, nat_eq, count, filter, Table, lookup, remove_key, remove_keys, lookup-remove_key,
  lookup-remove_keys, ◌==◌,
}
use tracker_miners.Base.Files.{FileOps, file_Eq}
use tracker_miners.PriorityQueue.{Node, delete_link}
use tracker_miners.PriorityQueue.Groups.{nodes}
use tracker_miners.PriorityQueue.Neighbours.{delete_link-nodes}
use tracker_miners.PriorityQueue.ForeachRemove.{kept}
use tracker_miners.MinerFs.Queue.{
  Item, MinerFs, find_item, is_below, item_below, remove_below, without_below, without_old,
  delete_old,
}
use tracker_miners.MinerFs.Queue.Counts.{
  count-filter, count-filter_all, nodes-remove_passing, count-delete_link,
}
use tracker_miners.MinerFs.Queue.Frees.{
  times, queue_of, of_root, queue_event_free-Freed, free_all-Freed, queue_event_free-IsTable,
  free_all-IsTable,
}

module _ {File : Type 0} ⦃ops : FileOps File⦄ where
  abbrev pub at_link : ℕ → Node (Item File) → Bool
  at_link l n = nat_eq n.link l

  abbrev pub of_file : File → ℕ → Node (Item File) → Bool
  of_file f l n = nat_eq n.link l && n.elem.event.file == f

  -- for a queue with the links below `next`
  pub record Links (ns : List (Node (Item File))) (next : ℕ) : Type 0 where
    pub fresh : (l : ℕ) → next ≤ l → count (at_link l) ns ≡ 0
    pub distinct : (l : ℕ) → count (at_link l) ns ≤ 1

  -- a root's queue has the root_nodes of the queued events that were assigned to the root
  abbrev pub IsRooted : List (Node (Item File)) → Table File (List ℕ) → Type 0
  IsRooted ns roots = (r : File) (l : ℕ) → times l (queue_of r roots) ≡ count (of_root r l) ns

  -- the table of files leads to queued events of these files
  abbrev pub IsIndexed : List (Node (Item File)) → Table File ℕ → Type 0
  IsIndexed ns by_file = (f : File) (l : ℕ) → lookup f by_file ≡ some l → 1 ≤ count (of_file f l) ns

  pub record IsLinked (fs : MinerFs File) : Type 0 where
    pub links : Links (nodes fs.items) fs.next_link
    pub rooted : IsRooted (nodes fs.items) fs.roots_to_notify
    pub indexed : IsIndexed (nodes fs.items) fs.items_by_file
    pub unique : IsTable fs.roots_to_notify

  -- A call runs without a fault, and keeps the links.
  abbrev pub Keeps : Option (MinerFs File) → Type 0
  Keeps o = (fs : MinerFs File) × (o ≡ some fs) × IsLinked fs

  Links-fewer :
      (ns ms : List (Node (Item File))) (next : ℕ)
      → ((l : ℕ) → count (at_link l) ms ≤ count (at_link l) ns)
      → Links ns next
      → Links ms next
  Links-fewer ns ms next h s = record {
    fresh = λ l k. omega (arith, h l, s.fresh l k);
    distinct = λ l. omega (arith, h l, s.distinct l);
  }

  module _ (prefix : File) (ns : List (Node (Item File))) where
    abbrev gone : List (Node (Item File))
    gone = filter (λ n. item_below prefix n.elem) ns

    abbrev left : List (Node (Item File))
    left = filter (kept (item_below prefix)) ns

    gone-left : (test : Node (Item File) → Bool) → count test gone + count test left ≡ count test ns
    gone-left test =
        count-filter test (λ n. item_below prefix n.elem) (kept (item_below prefix)) ns (λ n. refl)

    left-IsIndexed :
        (by_file : Table File ℕ)
        → IsIndexed ns by_file
        → IsIndexed left (remove_keys (is_below prefix) by_file)
    left-IsIndexed by_file h f l e = elim (Bool-cases (is_below prefix f)) [
      | inl below ↦
          absurd (ground (arith, e, below, lookup-remove_keys (is_below prefix) f by_file))
      | inr apart ↦
          subst (λ c. 1 ≤ c)
            (sym (
              count-filter_all (of_file f l) (kept (item_below prefix)) ns
                (λ n t. ground (arith, apart, t, ops.eq.same_iff n.elem.event.file f))))
            (h f l (ground (arith, e, apart, lookup-remove_keys (is_below prefix) f by_file)))
    ]

  pub remove_below-Keeps :
      (prefix : File) (fs : MinerFs File) → IsLinked fs → Keeps (remove_below prefix fs)
  unfolding remove_below
  remove_below-Keeps prefix fs s =
      let ns = nodes fs.items in
      let (roots, e, freed) =
        free_all-Freed (gone prefix ns) fs.roots_to_notify
          (λ r l. omega (arith, s.rooted r l, gone-left prefix ns (of_root r l))) in
      (
        without_below prefix fs roots,
        ap (λ o. o >>= λ rs. some (without_below prefix fs rs)) e,
        record {
          links =
              subst (λ ms. Links ms fs.next_link)
                (sym (nodes-remove_passing (item_below prefix) fs.items))
                (Links-fewer ns (left prefix ns) fs.next_link
                  (λ l. omega (arith, gone-left prefix ns (at_link l))) s.links);
          rooted =
              subst (λ ms. IsRooted ms roots)
                (sym (nodes-remove_passing (item_below prefix) fs.items))
                (λ r l. omega (arith, freed r l, s.rooted r l, gone-left prefix ns (of_root r l)));
          indexed =
              subst (λ ms. IsIndexed ms (remove_keys (is_below prefix) fs.items_by_file))
                (sym (nodes-remove_passing (item_below prefix) fs.items))
                (left-IsIndexed prefix ns fs.items_by_file s.indexed);
          unique = free_all-IsTable (gone prefix ns) fs.roots_to_notify roots e s.unique;
        },
      )

  pub find_item-counts :
      (f : File) (l : ℕ) (ns : List (Node (Item File)))
      → 1 ≤ count (of_file f l) ns
      → (i : Item File) × (find_item l ns ≡ some i)
  find_item-counts f l [] h = absurd (omega arith)
  find_item-counts f l (n ∷ ns) h = elim (Bool-cases (nat_eq n.link l)) [
    | inl here ↦ (n.elem, ground (arith, here))
    | inr there ↦
        let (i, e) = find_item-counts f l ns (ground (arith, h, there)) in
        (i, ground (arith, e, there))
  ]

  pub delete_old-Keeps :
      (link : ℕ) (old : Item File) (fs : MinerFs File)
      → find_item link (nodes fs.items) ≡ some old
      → IsLinked fs
      → Keeps (delete_old link old fs)
  unfolding delete_old
  delete_old-Keeps link old fs g s =
      let ns = nodes fs.items in
      let n : Node (Item File) = record { link = link; elem = old } in
      let (roots, e, freed) =
        queue_event_free-Freed n fs.roots_to_notify
          (λ r l. omega (arith, s.rooted r l, count-delete_link (of_root r l) link old ns g)) in
      (
        without_old link old fs roots,
        ap (λ o. o >>= λ rs. some (without_old link old fs rs)) e,
        record {
          links =
              subst (λ ms. Links ms fs.next_link) (delete_link-nodes link fs.items)
                (Links-fewer ns (delete_link link ns) fs.next_link
                  (λ l. omega (arith, count-delete_link (at_link l) link old ns g)) s.links);
          rooted =
              subst (λ ms. IsRooted ms roots) (delete_link-nodes link fs.items)
                (λ r l.
                  omega (
                    arith,
                    freed r l,
                    s.rooted r l,
                    count-delete_link (of_root r l) link old ns g,
                  ));
          indexed =
              subst (λ ms. IsIndexed ms (remove_key old.event.file fs.items_by_file))
                (delete_link-nodes link fs.items)
                (λ f l k. ground (
                  arith,
                  k,
                  count-delete_link (of_file f l) link old ns g,
                  lookup-remove_key old.event.file f fs.items_by_file,
                  s.indexed f l,
                ));
          unique = queue_event_free-IsTable n fs.roots_to_notify roots e s.unique;
        },
      )
