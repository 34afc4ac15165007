-- ===== src/Signals.antt =====
-- The standard signals of src/imp/22-02.c: a handler is set for each, and each is raised, in random order.
pub mod Size
pub mod Raise
pub mod Handled
mod Tests
use tlpiexer.Prelude.{
  ℕ, zero, suc, ◌+◌, ◌-◌, ◌%◌, Bool, true, false, ◌||◌, Option, none, some, List, [], ◌∷◌, ◌++◌,
  ◌==◌, ltb, if◌then◌else◌, Run, ok, out_of_fuel, ◌>>=◌,
}

abbrev pub sigkill : ℕ
sigkill = 9

abbrev pub sigstop : ℕ
sigstop = 19

-- `sigset_t`, and which signals have a handler
abbrev pub SigSet : Type 0
SigSet = ℕ → Bool

-- `sigaddset`
abbrev pub sigaddset : SigSet → ℕ → SigSet
sigaddset set sig k = k == sig || set k

-- `min + rand() % (max - min + 1)`, from the result of `rand`
abbrev pub rrand : ℕ → ℕ → ℕ → ℕ
rrand min max rand = min + rand % (max - min + 1)

-- The loop of `setup_stdsignal`, with so many rounds left, by the number of a signal whether `sigaction`
-- succeeds: the handlers, and whether it comes to its end.
unfoldable pub setup_loop : ℕ → ℕ → (ℕ → Bool) → SigSet → Bool × SigSet
setup_loop zero i sigaction handled = (true, handled)
setup_loop (suc n) i sigaction handled = elim (i == sigkill || i == sigstop) [
  | true ↦ setup_loop n (i + 1) sigaction handled
  | false ↦ elim (sigaction i) [
    | false ↦ (false, handled)
    | true ↦ setup_loop n (i + 1) sigaction (sigaddset handled i)
  ]
]

unfoldable pub setup_stdsignal : (ℕ → Bool) → SigSet → Bool × SigSet
setup_stdsignal sigaction handled = setup_loop 31 1 sigaction handled

-- The loop of `raise_stdsignal` from the call `i` of `rand` on: the signals raised, in their order
unfoldable pub raise_loop : ℕ → (ℕ → ℕ) → ℕ → SigSet → ℕ → List ℕ → Run (List ℕ)
raise_loop zero rand i sig_done nsig_done raised =
    if ltb nsig_done 31 then out_of_fuel else ok raised
raise_loop (suc fuel) rand i sig_done nsig_done raised = elim (ltb nsig_done 31) [
  | false ↦ ok raised
  | true ↦
      let sig = rrand 1 31 (rand i) in
      elim (sig_done sig) [
        | true ↦ raise_loop fuel rand (i + 1) sig_done nsig_done raised
        | false ↦
            raise_loop fuel rand (i + 1) (sigaddset sig_done sig) (nsig_done + 1)
              (raised ++ sig ∷ [])
      ]
]

abbrev pub no_signal : SigSet
no_signal k = false

unfoldable pub raise_stdsignal : ℕ → (ℕ → ℕ) → Run (List ℕ)
raise_stdsignal fuel rand =
    raise_loop fuel rand 0 (sigaddset (sigaddset no_signal sigkill) sigstop) 2 []

-- `main` as to the standard signals: `none` where it ends by `exit_err`, else the handlers and the signals
-- that are raised.
unfoldable pub main : ℕ → (ℕ → Bool) → (ℕ → ℕ) → Run (Option (SigSet × List ℕ))
main fuel sigaction rand =
    let (set, handled) = setup_stdsignal sigaction no_signal in
    let signals = raise_stdsignal fuel rand in
    if set then (signals >>= λ raised. ok (some (handled, raised))) else ok none
