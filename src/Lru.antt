-- ===== src/Lru.antt =====
-- src/miners/fs/tracker-lru.c: a cache of at most max_size elements, of which the one that was not looked
-- for the longest goes first.
-- A node of the queue is known by its link, and `items` leads from an element to the link of its node. A
-- function gives none where the code would follow a pointer to a node that is freed. Every node has a
-- new link.
pub mod Recent
pub mod Cache
pub mod Refines
pub mod Adds
pub mod Foreach
pub mod Runs
mod Examples
use tracker_miners.Base.Options.{◌>>=◌}
use tracker_miners.Base.{
  ℕ, zero, suc, Bool, true, false, ◌&&◌, Option, none, some, List, [], ◌∷◌, nat_eq, ltb,
  if◌then◌else◌, Eq, ◌==◌, length, Table, lookup, insert, remove_key,
}

-- TrackerLRUElement, whose data is `value`, with its link
pub record LruElement (E D : Type 0) : Type 0 where
  pub link : ℕ
  pub element : E
  pub value : D

pub record Lru (E D : Type 0) : Type 0 where
  pub queue : List (LruElement E D)
  pub items : Table E ℕ
  pub max_size : ℕ
  pub next_link : ℕ

module _ {E D : Type 0} where
  abbrev pub new : ℕ → Lru E D
  new size = record { queue = []; items = []; max_size = size; next_link = 0 }

  abbrev pub node_at : ℕ → List (LruElement E D) → Option (LruElement E D)
  node_at l [] = none
  node_at l (n ∷ ns) = if nat_eq n.link l then some n else node_at l ns

  -- g_queue_unlink
  unfoldable pub unlink : ℕ → List (LruElement E D) → List (LruElement E D)
  unlink l [] = []
  unlink l (n ∷ ns) = let rest = unlink l ns in if nat_eq n.link l then ns else n ∷ rest

  -- g_queue_pop_tail, with what is left
  unfoldable pub pop_tail :
      LruElement E D → List (LruElement E D) → LruElement E D × List (LruElement E D)
  pop_tail n [] = (n, [])
  pop_tail n (m ∷ ns) = let rest = pop_tail m ns in (rest.0, n ∷ rest.1)

  abbrev pub is_head : ℕ → List (LruElement E D) → Bool
  is_head l [] = false
  is_head l (n ∷ ns) = nat_eq n.link l

  abbrev pub push_to_head : LruElement E D → List (LruElement E D) → List (LruElement E D)
  push_to_head n q = if is_head n.link q then q else n ∷ unlink n.link q

  abbrev pub to_head : LruElement E D → Lru E D → Lru E D
  to_head n lru = record lru { queue = push_to_head n lru.queue }

module _ {E D : Type 0} ⦃keys : Eq E⦄ where
  abbrev pub free_node : LruElement E D → Table E ℕ → Table E ℕ
  free_node n items = remove_key n.element items

  abbrev pub find_at : Lru E D → Option ℕ → Option (Option D × Lru E D)
  find_at lru none = some (none, lru)
  find_at lru (some l) = node_at l lru.queue >>= λ n. some (some n.value, to_head n lru)

  unfoldable pub find : E → Lru E D → Option (Option D × Lru E D)
  find e lru = find_at lru (lookup e lru.items)

  -- the state with the node at the head, before the size is looked at
  abbrev pub pushed : E → D → Lru E D → Lru E D
  pushed e d lru = record lru {
    queue = record { link = lru.next_link; element = e; value = d } ∷ lru.queue;
    items = insert e lru.next_link lru.items;
    next_link = suc lru.next_link;
  }

  abbrev pub without_last : LruElement E D × List (LruElement E D) → Lru E D → Lru E D
  without_last (last, rest) lru = record lru { queue = rest; items = free_node last lru.items }

  unfoldable pub add : E → D → Lru E D → Lru E D
  add e d lru =
      if ltb lru.max_size (length (pushed e d lru).items)
      then without_last
          (pop_tail (record { link = lru.next_link; element = e; value = d }) lru.queue)
          (pushed e d lru)
      else pushed e d lru

  abbrev pub remove_at : Lru E D → Option ℕ → Option (Lru E D)
  remove_at lru none = some lru
  remove_at lru (some l) = node_at l lru.queue >>= λ n.
      some (record lru { queue = unlink l lru.queue; items = free_node n lru.items })

  unfoldable pub remove : E → Lru E D → Option (Lru E D)
  remove e lru = remove_at lru (lookup e lru.items)

  -- the loop of remove_foreach, on the queue from a link on
  unfoldable pub remove_loop :
      (E → Bool) → List (LruElement E D) → Table E ℕ → List (LruElement E D) × Table E ℕ
  remove_loop test [] items = ([], items)
  remove_loop test (n ∷ ns) items =
      let gone = remove_loop test ns (free_node n items) in
      let kept = remove_loop test ns items in if test n.element then gone else (n ∷ kept.0, kept.1)

  unfoldable pub remove_foreach : (E → Bool) → Lru E D → Lru E D
  remove_foreach test lru = record lru {
    queue = (remove_loop test lru.queue lru.items).0;
    items = (remove_loop test lru.queue lru.items).1;
  }
