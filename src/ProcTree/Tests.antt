-- ===== src/ProcTree/Tests.antt =====
-- Runs of the process tree of src/imp/12-02.c.
use tlpiexer.Prelude.{ℕ, ◌≡◌, refl, true, some, List, [], ◌∷◌, ok}
use tlpiexer.ProcTree.{PInfo, top, ptree, children, main, parseproc}

abbrev proc : ℕ → ℕ → PInfo
proc pid ppid = record { pid = pid; ppid = ppid; name = 97 ∷ [] }

-- Two children of process 1, and the child of one of them.
abbrev procs : List PInfo
procs = proc 4 2 ∷ proc 1 0 ∷ proc 2 1 ∷ proc 3 1 ∷ []

whole_tree :
    ptree 6 0 top procs
    ≡ ok ((0, top) ∷ (1, proc 1 0) ∷ (2, proc 2 1) ∷ (3, proc 4 2) ∷ (2, proc 3 1) ∷ [])
unfolding ptree children
whole_tree = refl

-- With no process at all, the slot that nothing sets is shown if it looks like a child of 0.
unset_slot_shown : main 0 3 (λ i. proc 9 0) true [] ≡ ok (some ((0, top) ∷ (1, proc 9 0) ∷ []))
unfolding main parseproc ptree children
unset_slot_shown = refl
