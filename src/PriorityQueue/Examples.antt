-- ===== src/PriorityQueue/Examples.antt =====
-- A queue of five elements in three priorities, and the theorems at it.
use tracker_miners.Base.{ℕ, ◌≡◌, some, List, [], ◌∷◌, arith, nat_eq, nat_eq_iff}
use tracker_miners.Base.Int.{pos, negsuc}
use tracker_miners.PriorityQueue.{Node, delete_link, insert_node}
use tracker_miners.PriorityQueue.Groups.{Group, represent, IsValid, add_to_groups}
use tracker_miners.PriorityQueue.Insert.{insert_node-represent}
use tracker_miners.PriorityQueue.Removal.{pop_node, remove_node, foreach_remove, find}
use tracker_miners.PriorityQueue.Pop.{pop_group, pop_node-represent}
use tracker_miners.PriorityQueue.Neighbours.{remove_from_groups}
use tracker_miners.PriorityQueue.ForeachRemove.{remove_passing, some_pass, foreach_remove-represent}
use tracker_miners.PriorityQueue.Finding.{find_in_groups, find-represent}
use tracker_miners.PriorityQueue.RemoveNode.{remove_node-represent}
use tracker_miners.PriorityQueue.Runs.{
  Call, adds, pops, removes, removes_passing, run, run_groups, run-empty, AllAllowed,
}

abbrev node : ℕ → ℕ → Node ℕ
node p x = record { link = p; elem = x }

abbrev low : Group ℕ
low = record { priority = negsuc 9; first = node 3 30; others = [] }

abbrev mid : Group ℕ
mid = record { priority = pos 0; first = node 1 10; others = node 4 40 ∷ node 5 50 ∷ [] }

abbrev high : Group ℕ
high = record { priority = pos 100; first = node 2 20; others = [] }

abbrev three : List (Group ℕ)
three = low ∷ mid ∷ high ∷ []

three-IsValid : IsValid three
three-IsValid = record {
  ascending = ground arith;
  distinct = λ p.
      ground
        (arith, nat_eq_iff 1 p, nat_eq_iff 2 p, nat_eq_iff 3 p, nat_eq_iff 4 p, nat_eq_iff 5 p);
}

abbrev calls : List (Call ℕ)
calls =
    adds (pos 0) (node 1 10)
    ∷ adds (pos 100) (node 2 20)
    ∷ adds (negsuc 9) (node 3 30)
    ∷ adds (pos 0) (node 4 40)
    ∷ adds (pos 0) (node 5 50)
    ∷ removes 4
    ∷ pops
    ∷ removes_passing (λ x. nat_eq x 20)
    ∷ pops
    ∷ []

calls_allowed : AllAllowed [] calls
unfolding add_to_groups remove_from_groups delete_link remove_passing
calls_allowed = ground arith

insert_node-represent_example :
    insert_node (represent three) (pos 7) (node 6 60)
    ≡ some (represent (add_to_groups (pos 7) (node 6 60) three))
insert_node-represent_example = insert_node-represent three (pos 7) (node 6 60) three-IsValid

pop_node-represent_example :
    pop_node (represent three) ≡ some ((pop_group three).0, represent (pop_group three).1)
pop_node-represent_example = pop_node-represent three three-IsValid

remove_node-represent_example :
    remove_node (represent three) 4 ≡ some (represent (remove_from_groups 4 three))
remove_node-represent_example = remove_node-represent three 4 three-IsValid (omega arith)

run-empty_example :
    run (record { queue = []; segments = [] }) calls
    ≡ some ((run_groups [] calls).0, represent (run_groups [] calls).1)
run-empty_example = run-empty calls calls_allowed

foreach_remove-represent_example :
    foreach_remove (represent three) (λ x. nat_eq x 10)
    ≡ some (
      represent (remove_passing (λ x. nat_eq x 10) three),
      some_pass (λ x. nat_eq x 10) (node 3 30 ∷ node 1 10 ∷ node 4 40 ∷ node 5 50 ∷ node 2 20 ∷ []),
    )
foreach_remove-represent_example = foreach_remove-represent (λ x. nat_eq x 10) three three-IsValid

find-represent_example :
    find (represent three) (λ x. nat_eq x 40) ≡ some (find_in_groups (λ x. nat_eq x 40) three)
find-represent_example = find-represent (λ x. nat_eq x 40) three three-IsValid
