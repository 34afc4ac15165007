-- ===== src/Numbered/Order.antt =====
-- That `sorti` of src/imp/14-01.c sorts, from the greatest number down.
use tlpiexer.Prelude.{
  count, ℕ, zero, suc, ◌+◌, ◌≡◌, ◌≤◌, refl, List, [], ◌∷◌, ltb, if◌then◌else◌, length, arith, ok,
  Bool-cases, inl, inr,
}
use tlpiexer.Numbered.{sorti, sort_loop}
use tlpiexer.Numbered.Sort.{greatest, selected, length-greatest, sorti-selected}

-- The same numbers, each as often.
abbrev pub SameNumbers : List ℕ → List ℕ → Type 0
SameNumbers xs ys = (k : ℕ) → count k xs ≡ count k ys

abbrev pub AllUpTo : ℕ → List ℕ → Type 0
AllUpTo b [] = Unit {0}
AllUpTo b (x ∷ xs) = (x ≤ b) × AllUpTo b xs

abbrev pub Decreasing : List ℕ → Type 0
Decreasing [] = Unit {0}
Decreasing (x ∷ xs) = AllUpTo x xs × Decreasing xs

count-greatest :
    (k x : ℕ) (ys : List ℕ) → count k ((greatest x ys).0 ∷ (greatest x ys).1) ≡ count k (x ∷ ys)
unfolding greatest
count-greatest k x [] = refl
count-greatest k x (y ∷ ys) = elim (Bool-cases (ltb x y)) [
  | inl less ↦ rw less (omega (arith, count-greatest k y ys))
  | inr more ↦ rw more (omega (arith, count-greatest k x ys))
]

AllUpTo-mono : (a b : ℕ) (xs : List ℕ) → a ≤ b → AllUpTo a xs → AllUpTo b xs
AllUpTo-mono a b [] h all = tt
AllUpTo-mono a b (x ∷ xs) h (le, all) = (omega arith, AllUpTo-mono a b xs h all)

greatest-AllUpTo :
    (x : ℕ) (ys : List ℕ) → (x ≤ (greatest x ys).0) × AllUpTo (greatest x ys).0 (greatest x ys).1
unfolding greatest
greatest-AllUpTo x [] = (omega arith, tt)
greatest-AllUpTo x (y ∷ ys) =
    let v : ℕ = if ltb x y then y else x in
    let (le, all) = greatest-AllUpTo v ys in
    let first : x ≤ v = ground arith in
    let left : (if ltb x y then x else y) ≤ v = ground arith in (omega arith, (omega arith, all))

-- What bounds all bounds what is selected.
AllUpTo-greatest :
    (b x : ℕ) (ys : List ℕ)
    → x ≤ b
    → AllUpTo b ys
    → ((greatest x ys).0 ≤ b) × AllUpTo b (greatest x ys).1
unfolding greatest
AllUpTo-greatest b x [] h all = (h, tt)
AllUpTo-greatest b x (y ∷ ys) h (le, all) = elim (Bool-cases (ltb x y)) [
  | inl less ↦ let (m, rest) = AllUpTo-greatest b y ys le all in rw less (m, (h, rest))
  | inr more ↦ let (m, rest) = AllUpTo-greatest b x ys h all in rw more (m, (le, rest))
]

AllUpTo-selected : (b n : ℕ) (xs : List ℕ) → AllUpTo b xs → AllUpTo b (selected n xs)
unfolding selected
AllUpTo-selected b zero xs all = all
AllUpTo-selected b (suc n) [] all = tt
AllUpTo-selected b (suc n) (x ∷ xs) (le, all) =
    let (m, rest) = AllUpTo-greatest b x xs le all in
    (m, AllUpTo-selected b n (greatest x xs).1 rest)

selected-Decreasing : (n : ℕ) (xs : List ℕ) → length xs ≤ n + 1 → Decreasing (selected n xs)
unfolding selected
selected-Decreasing zero [] h = tt
selected-Decreasing zero (x ∷ []) h = (tt, tt)
selected-Decreasing zero (x ∷ y ∷ xs) h = absurd (omega arith)
selected-Decreasing (suc n) [] h = tt
selected-Decreasing (suc n) (x ∷ xs) h = (
  AllUpTo-selected _ n (greatest x xs).1 (greatest-AllUpTo x xs).1,
  selected-Decreasing n (greatest x xs).1 (omega (arith, length-greatest x xs)),
)

count-selected : (k n : ℕ) (xs : List ℕ) → count k (selected n xs) ≡ count k xs
unfolding selected
count-selected k zero xs = refl
count-selected k (suc n) [] = refl
count-selected k (suc n) (x ∷ xs) =
    omega (arith, count-selected k n (greatest x xs).1, count-greatest k x xs)

-- `sorti` puts the numbers of every array, each as often as it is there, in decreasing order.
pub sorti-Decreasing :
    (arr : List ℕ)
    → (sorted : List ℕ) × (sorti (length arr) arr ≡ ok sorted)
      × SameNumbers sorted arr
      × Decreasing sorted
unfolding sorti sort_loop
sorti-Decreasing [] = ([], refl, λ k. refl, tt)
sorti-Decreasing (x ∷ xs) = (
  selected (length xs) (x ∷ xs),
  sorti-selected x xs,
  λ k. count-selected k (length xs) (x ∷ xs),
  selected-Decreasing (length xs) (x ∷ xs) (omega arith),
)
