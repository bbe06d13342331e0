-- ===== src/Lru/Examples.antt =====
-- Calls on a cache of two elements.
use tracker_miners.Base.{
  ℕ, ◌≤◌, ◌≡◌, refl, none, some, List, [], ◌∷◌, ℕ_Eq, length, lookup, insert, remove_key,
}
use tracker_miners.Lru.{Lru, new, find, add, remove, unlink, pop_tail}
use tracker_miners.Lru.Recent.{pairs}
use tracker_miners.Lru.Runs.{
  Call, gets, adds, finds, removes, AllAllowed, run, step, run-new, run-new-bounded,
}

abbrev four_calls : List (Call ℕ ℕ)
four_calls = gets 1 10 ∷ adds 2 20 ∷ finds 1 ∷ gets 3 30 ∷ []

four_calls_allowed : AllAllowed 2 four_calls []
unfolding lookup
four_calls_allowed = (tt, (refl, (tt, (tt, tt))))

-- the second element is the one that was not used for longest, and is gone
run-new_example :
    (r : Lru ℕ ℕ) × (run four_calls (new 2) ≡ some (some 10 ∷ none ∷ some 10 ∷ some 30 ∷ [], r))
    × (pairs r.queue ≡ (3, 30) ∷ (1, 10) ∷ [])
unfolding lookup remove_key
run-new_example = run-new four_calls 2 four_calls_allowed

abbrev after_four : Lru ℕ ℕ
after_four = record {
  queue =
      record { link = 2; element = 3; value = 30 }
      ∷ record { link = 0; element = 1; value = 10 }
      ∷ [];
  items = (3, 2) ∷ (1, 0) ∷ [];
  max_size = 2;
  next_link = 3;
}

four_calls-after_four :
    run four_calls (new 2) ≡ some (some 10 ∷ none ∷ some 10 ∷ some 30 ∷ [], after_four)
unfolding run step find add unlink pop_tail lookup insert remove_key
four_calls-after_four = refl

run-new-bounded_example : length after_four.queue ≤ 2
run-new-bounded_example =
    run-new-bounded four_calls 2 (some 10 ∷ none ∷ some 10 ∷ some 30 ∷ []) after_four
      four_calls_allowed four_calls-after_four

-- an element that is added twice is in the queue twice, and stays when it is removed
abbrev added_twice : Lru ℕ ℕ
added_twice = record {
  queue = record { link = 0; element = 1; value = 10 } ∷ [];
  items = [];
  max_size = 1;
  next_link = 2;
}

twice-added_twice :
    run (adds 1 10 ∷ adds 1 11 ∷ removes 1 ∷ []) (new 1)
    ≡ some (none ∷ none ∷ none ∷ [], added_twice)
unfolding run step add remove unlink lookup insert remove_key
twice-added_twice = refl
