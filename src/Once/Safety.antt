-- ===== src/Once/Safety.antt =====
-- The calls of `init` by `one_time_init` (src/imp/31-01.c).
use tlpiexer.Prelude.{
  ℕ, ◌≤◌, ◌≡◌, refl, Bool, true, false, none, some, List, [], ◌∷◌, if◌then◌else◌, arith,
}
use tlpiexer.Once.{
  ret_success, Pc, locking, testing, marking, unlocking, returned, System, turn, run, initial,
}

-- Between the lock and what gives it back.
abbrev pub inside : Pc → Bool
inside testing = true
inside marking = true
inside unlocking = true
inside _ = false

abbrev initialised : Pc → ℕ
initialised marking = 1
initialised _ = 0

abbrev pub expected : System → ℕ
expected s = if s.called then 1 else elim s.mutex [ none ↦ 0 | some i ↦ initialised (s.pc i) ]

pub record Inv (s : System) : Type 0 where
  pub owned : (i : ℕ) → inside (s.pc i) ≡ true → s.mutex ≡ some i
  pub counted : s.inits ≡ expected s
  pub marked : (i : ℕ) → s.pc i ≡ unlocking → s.called ≡ true
  pub fresh : (i : ℕ) → s.pc i ≡ marking → s.called ≡ false
  pub succeeded : (i : ℕ) → s.pc i ≡ returned ret_success → s.called ≡ true

module _ (fine : Bool) (s : System) (i : ℕ) (inv : Inv s) where
  pub turn-Inv : (p : Pc) → s.pc i ≡ p → Inv (turn fine s i p)
  unfolding turn
  turn-Inv p e = record {
    owned = λ j h. owned p e j h;
    counted = counted p e;
    marked = λ j h. marked p e j h;
    fresh = λ j h. fresh p e j h;
    succeeded = λ j h. succeeded p e j h;
  }
    where
      owned :
          (p : Pc)
          → s.pc i ≡ p
          → (j : ℕ) → inside ((turn fine s i p).pc j) ≡ true
          → (turn fine s i p).mutex ≡ some j
      owned locking e j h = ground (arith, inv.owned j)
      owned p e j h = ground (arith, inv.owned j, inv.owned i)

      counted : (p : Pc) → s.pc i ≡ p → (turn fine s i p).inits ≡ expected (turn fine s i p)
      counted locking e = ground (arith, inv.counted)
      counted p e = ground (arith, inv.counted, inv.owned i, inv.marked i)

      marked :
          (p : Pc)
          → s.pc i ≡ p
          → (j : ℕ) → (turn fine s i p).pc j ≡ unlocking
          → (turn fine s i p).called ≡ true
      marked locking e j h = ground (arith, inv.marked j)
      marked p e j h = ground (arith, inv.marked j)

      fresh :
          (p : Pc)
          → s.pc i ≡ p
          → (j : ℕ) → (turn fine s i p).pc j ≡ marking
          → (turn fine s i p).called ≡ false
      fresh locking e j h = ground (arith, inv.fresh j)
      fresh p e j h = ground (arith, inv.fresh j, inv.owned i, inv.owned j)

      succeeded :
          (p : Pc)
          → s.pc i ≡ p
          → (j : ℕ) → (turn fine s i p).pc j ≡ returned ret_success
          → (turn fine s i p).called ≡ true
      succeeded locking e j h = ground (arith, inv.succeeded j)
      succeeded p e j h = ground (arith, inv.succeeded j, inv.marked i)

pub run-Inv : (turns : List (ℕ × Bool)) (s : System) → Inv s → Inv (run turns s)
unfolding run
run-Inv [] s inv = inv
run-Inv ((i, fine) ∷ turns) s inv =
    run-Inv turns (turn fine s i (s.pc i)) (turn-Inv fine s i inv (s.pc i) refl)

pub initial-Inv : Inv initial
initial-Inv = record {
  owned = λ i h. cc;
  counted = refl;
  marked = λ i h. cc;
  fresh = λ i h. cc;
  succeeded = λ i h. cc;
}

-- In every order of turns `init` is called at most once, and exactly once where some call has
-- returned RET_SUCCESS.
pub init_once :
    (turns : List (ℕ × Bool))
    → ((run turns initial).inits ≤ 1)
      × ((i : ℕ) → (run turns initial).pc i ≡ returned ret_success → (run turns initial).inits ≡ 1)
init_once turns =
    let inv = run-Inv turns initial initial-Inv in
    (at_most (run turns initial) inv, λ i h. ground (arith, inv.counted, inv.succeeded i))
  where
    at_most : (s : System) → Inv s → s.inits ≤ 1
    at_most s inv = ground (arith, inv.counted)
