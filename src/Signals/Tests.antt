-- ===== src/Signals/Tests.antt =====
-- The signals of src/imp/22-02.c with results of `rand` that count up.
use tlpiexer.Prelude.{Bool, not, ◌||◌, ◌==◌, ℕ, ◌≡◌, refl, false, none, ok, out_of_fuel}
use tlpiexer.Signals.{setup_loop, setup_stdsignal, raise_loop, raise_stdsignal, main}

abbrev counting : ℕ → ℕ
counting i = i

abbrev documented : ℕ → Bool
documented k = not (k == 9 || k == 19)

-- 29 results are not enough.
too_few : raise_stdsignal 29 counting ≡ out_of_fuel
unfolding raise_stdsignal raise_loop
too_few = refl

-- A `sigaction` that fails ends the program.
exits : main 31 (λ k. false) counting ≡ ok none
unfolding main setup_stdsignal setup_loop
exits = refl
