-- ===== src/Numbered/Files.antt =====
-- What the program of src/imp/14-01.c leaves in the directory.
use tlpiexer.Prelude.{
  count, ℕ, zero, suc, ◌+◌, ◌≡◌, ◌≤◌, ◌<◌, refl, sym, ap, ◌∙◌, Bool, true, false, some, List, [],
  ◌∷◌, ltb, ◌==◌, if◌then◌else◌, length, arith, ok, fault, Bool-cases, inl, inr,
}
use tlpiexer.Numbered.{
  Directory, arr_max, rrand, fill, gennum, make_files, remove_files, sorti, main,
}
use tlpiexer.Numbered.Order.{sorti-Decreasing}

-- The numbers from `i` on.
unfoldable numbers : ℕ → ℕ → List ℕ
numbers zero i = []
numbers (suc n) i = i ∷ numbers n (i + 1)

length-numbers : (n i : ℕ) → length (numbers n i) ≡ n
unfolding numbers
length-numbers zero i = refl
length-numbers (suc n) i = ap suc (length-numbers n (i + 1))

count-numbers :
    (n i k : ℕ) → count k (numbers n i) ≡ (if ltb k i then 0 else if ltb k (i + n) then 1 else 0)
unfolding numbers
count-numbers zero i k = ground arith
count-numbers (suc n) i k = let rest = count-numbers n (i + 1) k in ground arith

fill-numbers : (n i : ℕ) → i + n ≤ arr_max → fill n i (λ k. k) ≡ ok (numbers n i)
unfolding fill numbers
fill-numbers zero i h = refl
fill-numbers (suc n) i h =
    let inside : ltb i arr_max ≡ true = ground arith in
    rw (fill-numbers n (i + 1) (omega arith), inside) refl

gennum-numbers :
    (size : ℕ) (rand : ℕ → ℕ) → size ≤ arr_max → gennum size 1 rand ≡ ok (some (numbers size 0))
unfolding gennum
gennum-numbers size rand h = rw (fill-numbers size 0 (omega arith)) refl

make_files-all :
    (opens writes : ℕ → Bool) (xs : List ℕ) (dir : Directory)
    → ((k : ℕ) → 0 < count k xs → opens k ≡ true)
    → ((k : ℕ) → 0 < count k xs → writes k ≡ true)
    → ((make_files opens writes xs dir).0 ≡ true)
      × ((k : ℕ)
          → (make_files opens writes xs dir).1 k ≡ (if ltb 0 (count k xs) then true else dir k))
unfolding make_files
make_files-all opens writes [] dir o w = (refl, λ k. refl)
make_files-all opens writes (x ∷ xs) dir o w =
    let here : 0 < count x (x ∷ xs) = ground arith in
    let dir' : Directory = λ k. if k == x then true else dir k in
    let (made, all) =
      make_files-all opens writes xs dir' (λ k h. o k (ground arith)) (λ k h. w k (ground arith)) in
    rw (o x here, w x here) (made, λ k. all k ∙ ground arith)

remove_files-all :
    (xs : List ℕ) (dir : Directory)
    → ((k : ℕ) → count k xs ≤ 1)
    → ((k : ℕ) → 0 < count k xs → dir k ≡ true)
    → ((remove_files xs dir).0 ≡ true)
      × ((k : ℕ) → (remove_files xs dir).1 k ≡ (if ltb 0 (count k xs) then false else dir k))
unfolding remove_files
remove_files-all [] dir once there = (refl, λ k. refl)
remove_files-all (x ∷ xs) dir once there =
    let here : 0 < count x (x ∷ xs) = ground arith in
    let dir' : Directory = λ k. if k == x then false else dir k in
    let (removed, all) =
      remove_files-all xs dir' (λ k. let o = once k in ground arith)
        (λ k h. elim (Bool-cases (k == x)) [
          | inl same ↦ let o = once k in absurd (ground arith)
          | inr other ↦ rw other (there k (ground arith))
        ]) in
    rw (there x here) (removed, λ k. all k ∙ ground arith)

-- With the option -o, for a size that the array has room for, and where no call fails, the program ends with
-- the directory it found, less the files that are named by the numbers below the size.
pub main-removes :
    (size : ℕ) (rand : ℕ → ℕ) (opens writes : ℕ → Bool) (dir : Directory)
    → size ≤ arr_max
    → ((k : ℕ) → k < size → opens k ≡ true)
    → ((k : ℕ) → k < size → writes k ≡ true)
    → (dir' : Directory) × (main size 1 rand opens writes dir ≡ ok dir')
      × ((k : ℕ) → dir' k ≡ (if ltb k size then false else dir k))
unfolding main
main-removes size rand opens writes dir h o w =
    let arr : List ℕ = numbers size 0 in
    let within : (k : ℕ) → count k arr ≡ (if ltb k size then 1 else 0) =
      λ k. let c = count-numbers size 0 k in ground arith in
    let (made, files) =
      make_files-all opens writes arr dir (λ k h'. let c = within k in o k (ground arith))
        (λ k h'. let c = within k in w k (ground arith)) in
    let (sorted, sorts, same, falls) = sorti-Decreasing arr in
    let sized : sorti size arr ≡ ok sorted =
      ap (λ n. sorti n arr) (sym (length-numbers size 0)) ∙ sorts in
    let (removed, gone) =
      remove_files-all sorted (make_files opens writes arr dir).1
        (λ k. let c = within k in let s = same k in ground arith)
        (λ k h'. let f = files k in let s = same k in f ∙ ground arith) in
    (
      (remove_files sorted (make_files opens writes arr dir).1).1,
      rw (gennum-numbers size rand h, made, sized) refl,
      λ k. let f = files k in let c = within k in let s = same k in gone k ∙ ground arith,
    )

fill-overruns : (n i : ℕ) (value : ℕ → ℕ) → i ≤ arr_max → arr_max < i + n → fill n i value ≡ fault
unfolding fill
fill-overruns zero i value h past = absurd (omega arith)
fill-overruns (suc n) i value h past = elim (Bool-cases (ltb i arr_max)) [
  | inl inside ↦ rw (fill-overruns n (i + 1) value (ground arith) (omega arith), inside) refl
  | inr outside ↦ rw outside refl
]

-- A size greater than ARR_MAX makes the program write past the end of the array, in either order of the
-- numbers.
pub main-overruns :
    (size order : ℕ) (rand : ℕ → ℕ) (opens writes : ℕ → Bool) (dir : Directory)
    → arr_max < size
    → order < 2
    → main size order rand opens writes dir ≡ fault
unfolding main gennum
main-overruns size zero rand opens writes dir h o =
    rw (fill-overruns size 0 (λ i. rrand 0 arr_max (rand i)) (omega arith) (omega arith)) refl
main-overruns size (suc zero) rand opens writes dir h o =
    rw (fill-overruns size 0 (λ i. i) (omega arith) (omega arith)) refl
main-overruns size (suc (suc n)) rand opens writes dir h o = absurd (omega arith)
