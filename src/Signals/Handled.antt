-- ===== src/Signals/Handled.antt =====
-- That the program of src/imp/22-02.c has a handler for what it raises.
use tlpiexer.Prelude.{ℕ, ◌+◌, ◌≡◌, Bool, false, ◌||◌, not, ◌==◌, ltb, if◌then◌else◌}
use tlpiexer.Signals.{sigkill, sigstop}

-- What the loop sets, in so many rounds from signal `i` on
abbrev in_rounds : ℕ → ℕ → ℕ → Bool
in_rounds n i k =
    if k == sigkill
    then false
    else if k == sigstop
    then false
    else if ltb k i
    then false
    else ltb k (i + n)

-- `sigaction` fails for SIGKILL and SIGSTOP, with EINVAL, and for no other signal.
abbrev pub Documented : (ℕ → Bool) → Type 0
Documented sigaction = (k : ℕ) → sigaction k ≡ not (k == sigkill || k == sigstop)
