-- ===== src/MinerFs/Queue/Notified.antt =====
-- notify_roots_finished: which roots it signals, and that it keeps the links.
use tracker_miners.Base.UniqueKeys.{IsTable}
use tracker_miners.Base.{
  ℕ, ◌≤◌, ◌≡◌, refl, sym, ap, ◌∙◌, Bool, true, false, not, ◌&&◌, ◌||◌, Option, none, some, is_some,
  List, [], ◌∷◌, ◌++◌, arith, nat_eq, nat_eq_refl, count, count-append, if◌then◌else◌, ◌+◌, Table,
  lookup, ◌==◌,
}
use tracker_miners.Base.Files.{FileOps, file_Eq}
use tracker_miners.PriorityQueue.{Node}
use tracker_miners.PriorityQueue.Groups.{nodes}
use tracker_miners.MinerFs.Queue.{Item, MinerFs}
use tracker_miners.MinerFs.Queue.Taking.{take_empty, notify_roots_finished}
use tracker_miners.MinerFs.Queue.Frees.{times, queue_of, is_root, of_root}
use tracker_miners.MinerFs.Queue.Linked.{IsLinked}

abbrev nonempty : Option (List ℕ) → Option (List ℕ)
nonempty none = none
nonempty (some []) = none
nonempty (some (q ∷ qs)) = some (q ∷ qs)

abbrev is_empty_queue : Option (List ℕ) → Bool
is_empty_queue none = false
is_empty_queue (some []) = true
is_empty_queue (some (q ∷ qs)) = false

queue_of-nonempty :
    (o : Option (List ℕ))
    → elim (nonempty o) [ none ↦ [] | some q ↦ q ] ≡ elim o [ none ↦ [] | some q ↦ q ]
queue_of-nonempty none = refl
queue_of-nonempty (some []) = refl
queue_of-nonempty (some (q ∷ qs)) = refl

module _ {File : Type 0} ⦃ops : FileOps File⦄ where
  abbrev pub is_listed : File → List File → Bool
  is_listed f [] = false
  is_listed f (x ∷ xs) = x == f || is_listed f xs

  -- how often a root is listed
  abbrev pub times_listed : File → List File → ℕ
  times_listed f xs = count (λ x. x == f) xs

  lookup-take_empty :
      (s : File) (t : Table File (List ℕ))
      → IsTable t
      → lookup s (take_empty t).1 ≡ nonempty (lookup s t)
  unfolding take_empty lookup
  lookup-take_empty s [] h = refl
  lookup-take_empty s ((r, []) ∷ t) h =
      ground (arith, lookup-take_empty s t h.1, h.0, ops.eq.same_iff r s)
  lookup-take_empty s ((r, q ∷ qs) ∷ t) h = ground (arith, lookup-take_empty s t h.1)

  is_listed-take_empty :
      (s : File) (t : Table File (List ℕ))
      → IsTable t
      → is_listed s (take_empty t).0 ≡ is_empty_queue (lookup s t)
  unfolding take_empty lookup
  is_listed-take_empty s [] h = refl
  is_listed-take_empty s ((r, []) ∷ t) h = ground (arith, is_listed-take_empty s t h.1)
  is_listed-take_empty s ((r, q ∷ qs) ∷ t) h =
      ground (arith, is_listed-take_empty s t h.1, h.0, ops.eq.same_iff r s)

  times_listed-take_empty :
      (s : File) (t : Table File (List ℕ))
      → IsTable t
      → times_listed s (take_empty t).0 ≡ (if is_empty_queue (lookup s t) then 1 else 0)
  unfolding take_empty lookup
  times_listed-take_empty s [] h = refl
  times_listed-take_empty s ((r, []) ∷ t) h = ground (
    arith,
    times_listed-take_empty s t h.1,
    h.0,
    ops.eq.same_iff r s,
    ap (λ x. lookup x t) {x = r} {y = s},
  )
  times_listed-take_empty s ((r, q ∷ qs) ∷ t) h = ground (
    arith,
    times_listed-take_empty s t h.1,
    h.0,
    ops.eq.same_iff r s,
    ap (λ x. lookup x t) {x = r} {y = s},
  )

  take_empty-IsTable : (t : Table File (List ℕ)) → IsTable t → IsTable (take_empty t).1
  unfolding take_empty
  take_empty-IsTable [] h = tt
  take_empty-IsTable ((r, []) ∷ t) h = take_empty-IsTable t h.1
  take_empty-IsTable ((r, q ∷ qs) ∷ t) h =
      (lookup-take_empty r t h.1 ∙ ap nonempty h.0, take_empty-IsTable t h.1)

  queue_of-take_empty :
      (s : File) (t : Table File (List ℕ)) → IsTable t → queue_of s (take_empty t).1 ≡ queue_of s t
  queue_of-take_empty s t h =
      ap (λ o. elim o [ none ↦ [] | some q ↦ q ]) (lookup-take_empty s t h)
      ∙ queue_of-nonempty (lookup s t)

  pub notify_roots_finished-IsLinked :
      (fs : MinerFs File) → IsLinked fs → IsLinked (notify_roots_finished fs)
  unfolding notify_roots_finished
  notify_roots_finished-IsLinked fs s = record {
    links = s.links;
    rooted = λ r l. ap (times l) (queue_of-take_empty r fs.roots_to_notify s.unique) ∙ s.rooted r l;
    indexed = s.indexed;
    unique = take_empty-IsTable fs.roots_to_notify s.unique;
  }

  -- the number of queued events that were assigned to a root
  abbrev pub pending : File → MinerFs File → ℕ
  pending r fs = count (λ n. is_root r n.elem.root) (nodes fs.items)

  of_root-pending :
      (r : File) (l : ℕ) (ns : List (Node (Item File)))
      → count (of_root r l) ns ≤ count (λ n. is_root r n.elem.root) ns
  of_root-pending r l [] = omega arith
  of_root-pending r l (n ∷ ns) = ground (arith, of_root-pending r l ns)

  none_pending :
      (r : File) (ns : List (Node (Item File)))
      → ((l : ℕ) → count (of_root r l) ns ≡ 0)
      → count (λ n. is_root r n.elem.root) ns ≡ 0
  none_pending r [] h = refl
  none_pending r (n ∷ ns) h =
      ground (arith, none_pending r ns (λ l. omega (arith, h l)), h n.link, nat_eq_refl n.link)

  is_empty-pending :
      (r : File) (fs : MinerFs File) (q : List ℕ)
      → queue_of r fs.roots_to_notify ≡ q
      → IsLinked fs
      → nat_eq (pending r fs) 0 ≡ elim q [ [] ↦ true | k ∷ ks ↦ false ]
  is_empty-pending r fs [] e s =
      ground (arith, none_pending r (nodes fs.items) (λ l. sym (s.rooted r l) ∙ ap (times l) e))
  is_empty-pending r fs (k ∷ ks) e s =
      ground
        (arith, of_root-pending r k (nodes fs.items), s.rooted r k, ap (times k) e, nat_eq_refl k)

  -- which roots the call signals
  pub is_listed-pending :
      (r : File) (fs : MinerFs File)
      → IsLinked fs
      → is_listed r (take_empty fs.roots_to_notify).0
        ≡ (is_some (lookup r fs.roots_to_notify) && nat_eq (pending r fs) 0)
  is_listed-pending r fs s =
      is_listed-take_empty r fs.roots_to_notify s.unique
      ∙ by_lookup (lookup r fs.roots_to_notify) refl
    where
      queue_at :
          {o : Option (List ℕ)}
          → lookup r fs.roots_to_notify ≡ o
          → queue_of r fs.roots_to_notify ≡ elim o [ none ↦ [] | some q ↦ q ]
      queue_at e = ap (λ o. elim o [ none ↦ [] | some q ↦ q ]) e

      by_lookup :
          (o : Option (List ℕ))
          → lookup r fs.roots_to_notify ≡ o
          → is_empty_queue o ≡ (is_some o && nat_eq (pending r fs) 0)
      by_lookup none e = refl
      by_lookup (some []) e = sym (is_empty-pending r fs [] (queue_at e) s)
      by_lookup (some (k ∷ ks)) e = sym (is_empty-pending r fs (k ∷ ks) (queue_at e) s)

  is_listed-append :
      (f : File) (xs ys : List File) → is_listed f (xs ++ ys) ≡ (is_listed f xs || is_listed f ys)
  is_listed-append f [] ys = refl
  is_listed-append f (x ∷ xs) ys = ground (arith, is_listed-append f xs ys)

  -- the roots that are signalled after the call
  pub notify_roots_finished-pending :
      (r : File) (fs : MinerFs File)
      → IsLinked fs
      → is_listed r (notify_roots_finished fs).finished_roots ≡ (
          (is_some (lookup r fs.roots_to_notify) && nat_eq (pending r fs) 0)
          || is_listed r fs.finished_roots)
  unfolding notify_roots_finished
  notify_roots_finished-pending r fs s =
      is_listed-append r (take_empty fs.roots_to_notify).0 fs.finished_roots
      ∙ ap (λ b. b || is_listed r fs.finished_roots) (is_listed-pending r fs s)

  -- how often a root is signalled behind the call
  pub times_listed-notify :
      (r : File) (fs : MinerFs File)
      → IsLinked fs
      → times_listed r (notify_roots_finished fs).finished_roots ≡ (
          (if is_some (lookup r fs.roots_to_notify) && nat_eq (pending r fs) 0 then 1 else 0)
          + times_listed r fs.finished_roots)
  unfolding notify_roots_finished
  times_listed-notify r fs s =
      count-append (λ x. x == r) (take_empty fs.roots_to_notify).0 fs.finished_roots
      ∙ ap (λ k. k + times_listed r fs.finished_roots)
          (times_listed-take_empty r fs.roots_to_notify s.unique
            ∙ ap (λ b. if b then 1 else 0)
                (sym (is_listed-take_empty r fs.roots_to_notify s.unique)
                  ∙ is_listed-pending r fs s))

  -- the roots that still wait after it
  pub notify_roots_finished-waiting :
      (r : File) (fs : MinerFs File)
      → IsLinked fs
      → is_some (lookup r (notify_roots_finished fs).roots_to_notify)
        ≡ (is_some (lookup r fs.roots_to_notify) && not (nat_eq (pending r fs) 0))
  unfolding notify_roots_finished
  notify_roots_finished-waiting r fs s =
      ap is_some (lookup-take_empty r fs.roots_to_notify s.unique)
      ∙ waits (lookup r fs.roots_to_notify) (is_listed-pending r fs s)
          (is_listed-take_empty r fs.roots_to_notify s.unique)
    where
      waits :
          (o : Option (List ℕ))
          → is_listed r (take_empty fs.roots_to_notify).0 ≡ (is_some o && nat_eq (pending r fs) 0)
          → is_listed r (take_empty fs.roots_to_notify).0 ≡ is_empty_queue o
          → is_some (nonempty o) ≡ (is_some o && not (nat_eq (pending r fs) 0))
      waits none e d = refl
      waits (some []) e d = ground (arith, e, d)
      waits (some (k ∷ ks)) e d = ground (arith, e, d)
