-- ===== src/Numbered/Tests.antt =====
-- Runs of the program of src/imp/14-01.c.
use tlpiexer.Prelude.{
  ℕ, ◌≡◌, refl, Bool, true, false, List, [], ◌∷◌, ltb, ◌==◌, if◌then◌else◌, arith, ok, fault,
  out_of_fuel,
}
use tlpiexer.Numbered.{
  Directory, fill, gennum, make_files, remove_files, exchange, sort_loop, sorti, main,
}
use tlpiexer.Numbered.Order.{SameNumbers, Decreasing, sorti-Decreasing}
use tlpiexer.Numbered.Files.{main-removes, main-overruns}

abbrev some_numbers : List ℕ
some_numbers = 2 ∷ 7 ∷ 1 ∷ 7 ∷ []

sorts : sorti 4 some_numbers ≡ ok (7 ∷ 7 ∷ 2 ∷ 1 ∷ [])
unfolding sorti sort_loop exchange
sorts = refl

sorti-Decreasing_example :
    (sorted : List ℕ) × (sorti 4 some_numbers ≡ ok sorted)
    × SameNumbers sorted some_numbers
    × Decreasing sorted
sorti-Decreasing_example = sorti-Decreasing some_numbers

-- The number 9 names a file that is there before.
abbrev with_nine : Directory
with_nine k = k == 9

abbrev always : ℕ → Bool
always k = true

main-removes_example :
    (dir : Directory) × (main 3 1 (λ i. i) always always with_nine ≡ ok dir)
    × ((k : ℕ) → dir k ≡ (if ltb k 3 then false else with_nine k))
main-removes_example =
    main-removes 3 (λ i. i) always always with_nine (omega arith) (λ k h. refl) (λ k h. refl)

main-overruns_example : main 1000000 0 (λ i. i) always always with_nine ≡ fault
main-overruns_example =
    main-overruns 1000000 0 (λ i. i) always always with_nine (omega arith) (omega arith)

-- Where `rand` gives 5 twice, the second `unlink` fails and the file of 3 stays.
left : Directory
unfolding main gennum fill make_files sorti sort_loop exchange remove_files
left = elim (main 3 0 (λ i. if i == 2 then 3 else 5) always always with_nine) [
  | ok dir ↦ dir
  | fault ↦ with_nine
  | out_of_fuel ↦ with_nine
]

keeps_three : left 3 ≡ true
unfolding left
keeps_three = refl

removes_five : left 5 ≡ false
unfolding left
removes_five = refl
