-- ===== src/PriorityQueue/Runs.antt =====
-- Any calls on a queue, from the empty one.
use tracker_miners.Base.Options.{◌>>=◌}
use tracker_miners.Base.{ℕ, ◌≤◌, ◌≡◌, refl, Bool, Option, none, some, List, [], ◌∷◌, arith}
use tracker_miners.Base.Int.{ℤ}
use tracker_miners.PriorityQueue.{Node, PriorityQueue, insert_node}
use tracker_miners.PriorityQueue.Groups.{Group, nodes, links, represent, IsValid, add_to_groups}
use tracker_miners.PriorityQueue.Insert.{insert_node-represent, add_to_groups-IsValid}
use tracker_miners.PriorityQueue.Removal.{pop_node, remove_node, foreach_remove}
use tracker_miners.PriorityQueue.Pop.{pop_group, pop_node-represent, pop_group-IsValid}
use tracker_miners.PriorityQueue.Neighbours.{remove_from_groups}
use tracker_miners.PriorityQueue.RemoveNode.{remove_node-represent}
use tracker_miners.PriorityQueue.ForeachRemove.{remove_passing, foreach_remove-represent}
use tracker_miners.PriorityQueue.RemoveValid.{remove_passing-IsValid, remove_from_groups-IsValid}

pub data Call (A : Type 0) : Type 0 where
  adds : ℤ → Node A → Call A
  pops : Call A
  removes : ℕ → Call A
  removes_passing : (A → Bool) → Call A

-- what pop_node handed out, where the call is one
abbrev pub Answer : Type 0 → Type 0
Answer A = Option (ℤ × Node A)

module _ {A : Type 0} where
  unfoldable pub step : PriorityQueue A → Call A → Option (Answer A × PriorityQueue A)
  step q (adds p n) = insert_node q p n >>= λ r. some (none, r)
  step q pops = pop_node q
  step q (removes p) = remove_node q p >>= λ r. some (none, r)
  step q (removes_passing test) = foreach_remove q test >>= λ (r, updated). some (none, r)

  unfoldable pub run : PriorityQueue A → List (Call A) → Option (List (Answer A) × PriorityQueue A)
  run q [] = some ([], q)
  run q (c ∷ cs) =
      step q c >>= λ (answer, r). run r cs >>= λ (answers, final). some (answer ∷ answers, final)

  -- the same calls on the groups
  abbrev pub step_groups : List (Group A) → Call A → Answer A × List (Group A)
  step_groups gs (adds p n) = (none, add_to_groups p n gs)
  step_groups gs pops = pop_group gs
  step_groups gs (removes p) = (none, remove_from_groups p gs)
  step_groups gs (removes_passing test) = (none, remove_passing test gs)

  abbrev pub run_groups : List (Group A) → List (Call A) → List (Answer A) × List (Group A)
  run_groups gs [] = ([], gs)
  run_groups gs (c ∷ cs) =
      let rest = run_groups (step_groups gs c).1 cs in ((step_groups gs c).0 ∷ rest.0, rest.1)

  -- A new link is at an address that is not in use, and a removed one is in the queue.
  abbrev pub Allowed : List (Group A) → Call A → Type 0
  Allowed gs (adds p n) = links n.link (nodes gs) ≡ 0
  Allowed gs pops = Unit {0}
  Allowed gs (removes p) = 1 ≤ links p (nodes gs)
  Allowed gs (removes_passing test) = Unit {0}

  abbrev pub AllAllowed : List (Group A) → List (Call A) → Type 0
  AllAllowed gs [] = Unit {0}
  AllAllowed gs (c ∷ cs) = Allowed gs c × AllAllowed (step_groups gs c).1 cs

  step_groups-IsValid :
      (gs : List (Group A)) (c : Call A) → IsValid gs → Allowed gs c → IsValid (step_groups gs c).1
  step_groups-IsValid gs (adds p n) v h = add_to_groups-IsValid p n gs h v
  step_groups-IsValid gs pops v h = pop_group-IsValid gs v
  step_groups-IsValid gs (removes p) v h = remove_from_groups-IsValid gs p v
  step_groups-IsValid gs (removes_passing test) v h = remove_passing-IsValid test gs v

  step-represent :
      (gs : List (Group A)) (c : Call A)
      → IsValid gs
      → Allowed gs c
      → step (represent gs) c ≡ some ((step_groups gs c).0, represent (step_groups gs c).1)
  unfolding step
  step-represent gs (adds p n) v h = rw (insert_node-represent gs p n v) refl
  step-represent gs pops v h = pop_node-represent gs v
  step-represent gs (removes p) v h = rw (remove_node-represent gs p v h) refl
  step-represent gs (removes_passing test) v h = rw (foreach_remove-represent test gs v) refl

  run-represent :
      (gs : List (Group A)) (cs : List (Call A))
      → IsValid gs
      → AllAllowed gs cs
      → run (represent gs) cs ≡ some ((run_groups gs cs).0, represent (run_groups gs cs).1)
  unfolding run
  run-represent gs [] v h = refl
  run-represent gs (c ∷ cs) v (h, hs) =
      rw
        (
          step-represent gs c v h,
          run-represent (step_groups gs c).1 cs (step_groups-IsValid gs c v h) hs,
        )
        refl

  -- From the empty queue, calls that add fresh links, pop, remove links of the queue, and remove all
  -- elements that pass a test run without a
  -- fault. What they hand out and the final state are those of the same calls on the groups, in which
  -- priorities ascend and the elements of one priority stand in the order of their addition.
  pub run-empty :
      (cs : List (Call A))
      → AllAllowed [] cs
      → run (record { queue = []; segments = [] }) cs
        ≡ some ((run_groups [] cs).0, represent (run_groups [] cs).1)
  run-empty cs h = run-represent [] cs (record { ascending = tt; distinct = λ l. omega arith }) h
