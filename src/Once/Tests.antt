-- ===== src/Once/Tests.antt =====
-- Runs of `one_time_init` (src/imp/31-01.c).
use tlpiexer.Prelude.{ℕ, ◌≡◌, ◌≤◌, true, List, [], ◌∷◌, ◌++◌, Bool}
use tlpiexer.Once.{System, ret_success, returned, run, initial}
use tlpiexer.Once.Safety.{init_once}

-- Thread 0 goes through; thread 1 locks and returns; thread 2 waits.
abbrev first_call : List (ℕ × Bool)
first_call = (0, true) ∷ (0, true) ∷ (0, true) ∷ (0, true) ∷ []

abbrev turns : List (ℕ × Bool)
turns = first_call ++ (1, true) ∷ (1, true) ∷ (2, true) ∷ []

init_once_example :
    ((run turns initial).inits ≤ 1)
    × ((i : ℕ) → (run turns initial).pc i ≡ returned ret_success → (run turns initial).inits ≡ 1)
init_once_example = init_once turns

abbrev after_first : System
after_first = run first_call initial
