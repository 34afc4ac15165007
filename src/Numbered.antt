-- ===== src/Numbered.antt =====
-- The program of src/imp/14-01.c: it makes files named by numbers, sorts the numbers, and removes the files
-- in that order.
pub mod Sort
pub mod Order
pub mod Files
mod Tests
use tlpiexer.Prelude.{
  ℕ, zero, suc, ◌+◌, ◌-◌, ◌%◌, Bool, true, false, not, Option, none, some, List, [], ◌∷◌, ◌==◌, ltb,
  if◌then◌else◌, get_elem?, set, length, Run, ok, fault, ◌>>=◌,
}

abbrev pub arr_max : ℕ
arr_max = 999999

-- `min + rand() % (max - min + 1)`, from the result of `rand`
abbrev pub rrand : ℕ → ℕ → ℕ → ℕ
rrand min max rand = min + rand % (max - min + 1)

-- The loops of `gennum`: so many numbers from index `i` of the array on, `arr[i] = value i`.
unfoldable pub fill : ℕ → ℕ → (ℕ → ℕ) → Run (List ℕ)
fill zero i value = ok []
fill (suc n) i value =
    let rest = fill n (i + 1) value in
    if ltb i arr_max then (rest >>= λ arr. ok (value i ∷ arr)) else fault

-- `rand` gives the results of the calls by their number. `none` is an order that is neither 0 nor 1.
unfoldable pub gennum : ℕ → ℕ → (ℕ → ℕ) → Run (Option (List ℕ))
gennum size order rand =
    if order == 0
    then (fill size 0 (λ i. rrand 0 arr_max (rand i)) >>= λ arr. ok (some arr))
    else if order == 1
    then (fill size 0 (λ i. i) >>= λ arr. ok (some arr))
    else ok none

-- The inner loop of `sorti`, with so many rounds left.
unfoldable pub exchange : ℕ → ℕ → ℕ → List ℕ → Run (List ℕ)
exchange zero i j arr = ok arr
exchange (suc n) i j arr = elim (get_elem? arr i) [
  | none ↦ fault
  | some x ↦ elim (get_elem? arr j) [
    | none ↦ fault
    | some y ↦ exchange n i (j + 1) (if ltb x y then set (set arr i y) j x else arr)
  ]
]

-- The outer loop, with so many rounds left.
unfoldable pub sort_loop : ℕ → ℕ → ℕ → List ℕ → Run (List ℕ)
sort_loop zero i size arr = ok arr
sort_loop (suc n) i size arr =
    exchange (size - (i + 1)) i (i + 1) arr >>= λ arr'. sort_loop n (i + 1) size arr'

unfoldable pub sorti : ℕ → List ℕ → Run (List ℕ)
sorti size arr = if size == 1 then ok arr else sort_loop (size - 1) 0 size arr

-- The directory: the numbers of the files in it.
abbrev pub Directory : Type 0
Directory = ℕ → Bool

-- The loop that makes the files, and whether it comes to its end: by the number, whether `open` succeeds,
-- and then whether `write` and `close` do.
unfoldable pub make_files : (ℕ → Bool) → (ℕ → Bool) → List ℕ → Directory → Bool × Directory
make_files opens writes [] dir = (true, dir)
make_files opens writes (x ∷ xs) dir =
    let dir' : Directory = λ k. if k == x then true else dir k in
    let rest = make_files opens writes xs dir' in
    if not (opens x) then (false, dir) else if not (writes x) then (false, dir') else rest

-- The loop that removes them: `unlink` fails where there is no such file.
unfoldable pub remove_files : List ℕ → Directory → Bool × Directory
remove_files [] dir = (true, dir)
remove_files (x ∷ xs) dir =
    let rest = remove_files xs (λ k. if k == x then false else dir k) in
    if dir x then rest else (false, dir)

-- `main` from its options on, for a size that is not 0 and a directory that is given: the directory
-- behind it. It exits with EXIT_SUCCESS also where a call fails, but for `gennum`.
unfoldable pub main : ℕ → ℕ → (ℕ → ℕ) → (ℕ → Bool) → (ℕ → Bool) → Directory → Run Directory
main size order rand opens writes dir = gennum size order rand >>= λ numbers. elim numbers [
  | none ↦ ok dir
  | some arr ↦
      let (made, dir') = make_files opens writes arr dir in
      if made then (sorti size arr >>= λ sorted. ok (remove_files sorted dir').1) else ok dir'
]
