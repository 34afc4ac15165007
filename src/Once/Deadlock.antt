-- ===== src/Once/Deadlock.antt =====
-- What a call of `one_time_init` (src/imp/31-01.c) that finds `called` set leaves behind.
use tlpiexer.Prelude.{
  ℕ, ◌≡◌, refl, ◌⊎◌, inl, Bool, true, none, some, List, [], ◌∷◌, arith, ◌≢◌, ◌==◌,
}
use tlpiexer.Once.{
  ret_success, ret_failure, Pc, locking, testing, returned, System, goto, turn, run,
}
use tlpiexer.Once.Safety.{Inv, turn-Inv}

-- Thread `i` has returned and still holds the mutex; thread `j` waits, or its lock failed.
pub record Stuck (i j : ℕ) (s : System) : Type 0 where
  pub held : s.mutex ≡ some i
  pub gone : s.pc i ≡ returned ret_success
  pub waits : (s.pc j ≡ locking) ⊎ (s.pc j ≡ returned ret_failure)

turn-Stuck :
    (fine : Bool) (s : System) (k i j : ℕ) (p : Pc)
    → s.pc k ≡ p
    → Inv s
    → Stuck i j s
    → Stuck i j (turn fine s k p)
unfolding turn
turn-Stuck fine s k i j locking e inv st = ground (arith, inv.owned k)
turn-Stuck fine s k i j p e inv st = ground (arith, inv.owned k)

run-Stuck :
    (turns : List (ℕ × Bool)) (s : System) (i j : ℕ) → Inv s → Stuck i j s → Stuck i j (run turns s)
unfolding run
run-Stuck [] s i j inv st = st
run-Stuck ((k, fine) ∷ turns) s i j inv st =
    run-Stuck turns _ i j (turn-Inv fine s k inv (s.pc k) refl)
      (turn-Stuck fine s k i j (s.pc k) refl inv st)

module _ (s : System) (i j : ℕ) (called : s.called ≡ true) (free : s.mutex ≡ none)
    (here : s.pc i ≡ locking) (there : s.pc j ≡ locking) (ne : j ≢ i) where
  locked : turn true s i (s.pc i) ≡ record s { mutex = some i; pc = goto s i testing }
  unfolding turn
  locked = rw here (rw free)

  -- Thread `i` locks, finds `called` set, and returns.
  two_turns : Stuck i j (run ((i, true) ∷ (i, true) ∷ []) s)
  unfolding run turn
  two_turns =
      let back : (i == i) ≡ true = ground arith in
      rw (locked, back, called) (record { held = refl; gone = rw back; waits = inl (ground arith) })

-- Once `init` has run and the mutex is free, in a state that turns lead to, the next call `i`
-- returns with the mutex locked, and whatever turns follow, another thread `j` that has still to
-- lock it never comes through.
pub second_call_blocks :
    (turns : List (ℕ × Bool)) (s : System) (i j : ℕ)
    → Inv s
    → s.called ≡ true
    → s.mutex ≡ none
    → s.pc i ≡ locking
    → s.pc j ≡ locking
    → j ≢ i
    → Stuck i j (run ((i, true) ∷ (i, true) ∷ turns) s)
unfolding run
second_call_blocks turns s i j inv called free here there ne =
    let t = turn true s i (s.pc i) in
    let inv1 = turn-Inv true s i inv (s.pc i) refl in
    run-Stuck turns _ i j (turn-Inv true t i inv1 (t.pc i) refl)
      (two_turns s i j called free here there ne)
