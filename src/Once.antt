-- ===== src/Once.antt =====
-- `one_time_init` of src/imp/31-01.c, called by any number of threads. A turn of a thread is one
-- call or one access to the shared structure; the order of the turns is a list of thread numbers.
pub mod Safety
pub mod Tests
pub mod Deadlock
use tlpiexer.Prelude.{
  ℕ, ◌+◌, Bool, true, false, Option, none, some, List, [], ◌∷◌, ◌==◌, if◌then◌else◌,
}

pub data Ret : Type 0 where
  ret_success ret_failure : Ret

-- Where a thread stands in `one_time_init`.
pub data Pc : Type 0 where
  locking : Pc  -- before `pthread_mutex_lock`
  testing : Pc  -- before `if (control->called)`
  marking : Pc  -- behind `init()`, before `control->called = 1`
  unlocking : Pc  -- before `pthread_mutex_unlock`
  returned : Ret → Pc

-- `struct once_control`, the mutex as the thread that holds it; how often `init` has been called;
-- and the threads.
pub record System : Type 0 where
  pub called : Bool
  pub mutex : Option ℕ
  pub inits : ℕ
  pub pc : ℕ → Pc

abbrev pub goto : System → ℕ → Pc → ℕ → Pc
goto s i p j = if j == i then p else s.pc j

-- `pthread_mutex_lock`: an error, a wait, or the lock.
unfoldable pub lock : Bool → System → ℕ → System
lock false s i = record s { pc = goto s i (returned ret_failure) }
lock true s i = elim s.mutex [
  | none ↦ record s { mutex = some i; pc = goto s i testing }
  | some _ ↦ s
]

unfoldable pub unlock : Bool → System → ℕ → System
unlock false s i = record s { pc = goto s i (returned ret_failure) }
unlock true s i = record s { mutex = none; pc = goto s i (returned ret_success) }

-- One turn of thread `i`; `fine` says whether a call of the mutex's functions returns 0.
unfoldable pub turn : Bool → System → ℕ → Pc → System
unfolding lock unlock
turn fine s i locking = lock fine s i
turn fine s i testing =
    if s.called
    then record s { pc = goto s i (returned ret_success) }
    else record s { inits = s.inits + 1; pc = goto s i marking }
turn fine s i marking = record s { called = true; pc = goto s i unlocking }
turn fine s i unlocking = unlock fine s i
turn fine s i (returned r) = s

unfoldable pub run : List (ℕ × Bool) → System → System
run [] s = s
run ((i, fine) ∷ turns) s = run turns (turn fine s i (s.pc i))

-- The structure as `main` sets it up, before the threads start.
abbrev pub initial : System
initial = record { called = false; mutex = none; inits = 0; pc = λ _. locking }
