-- ===== src/Numbered/Sort.antt =====
-- The loops of `sorti` of src/imp/14-01.c on lists.
use tlpiexer.Prelude.{
  ℕ, zero, suc, ◌+◌, ◌-◌, ◌≡◌, refl, sym, ap, ◌∙◌, false, some, List, [], ◌∷◌, ◌++◌, ltb, ◌==◌,
  if◌then◌else◌, get_elem?, set, length, length-append, append_assoc, arith, ok, Bool-cases, inl,
  inr,
}
use tlpiexer.Numbered.{exchange, sort_loop, sorti}

module _ {ℓ} {A : Type ℓ} where
  get_elem?-middle :
      (a b : List A) (x : A) (k : ℕ) → k ≡ length a → get_elem? (a ++ x ∷ b) k ≡ some x
  get_elem?-middle [] b x k e = rw e
  get_elem?-middle (y ∷ a) b x zero e = absurd (omega arith)
  get_elem?-middle (y ∷ a) b x (suc k) e = get_elem?-middle a b x k (omega arith)

  set-middle : (a b : List A) (x v : A) (k : ℕ) → k ≡ length a → set (a ++ x ∷ b) k v ≡ a ++ v ∷ b
  set-middle [] b x v k e = rw e
  set-middle (y ∷ a) b x v zero e = absurd (omega arith)
  set-middle (y ∷ a) b x v (suc k) e = rw (set-middle a b x v k (omega arith))

-- One run of the inner loop: the greatest number, and the others as they then stand.
unfoldable pub greatest : ℕ → List ℕ → ℕ × List ℕ
greatest x [] = (x, [])
greatest x (y ∷ ys) =
    let (m, zs) = greatest (if ltb x y then y else x) ys in (m, (if ltb x y then x else y) ∷ zs)

exchange-greatest :
    (front : List ℕ) (x : ℕ) (seen ys : List ℕ) (n i j : ℕ)
    → i ≡ length front
    → j ≡ i + 1 + length seen
    → n ≡ length ys
    → exchange n i j (front ++ x ∷ (seen ++ ys))
      ≡ ok (front ++ (greatest x ys).0 ∷ (seen ++ (greatest x ys).1))
unfolding exchange greatest
exchange-greatest front x seen [] n i j at next e = rw e
exchange-greatest front x seen (y ∷ ys) zero i j at next e = absurd (omega arith)
exchange-greatest front x seen (y ∷ ys) (suc n) i j at next e =
    let arr : List ℕ = front ++ x ∷ (seen ++ y ∷ ys) in
    let regroup : (v : ℕ) → front ++ v ∷ (seen ++ y ∷ ys) ≡ (front ++ v ∷ seen) ++ y ∷ ys =
      λ v. sym (append_assoc front (v ∷ seen) (y ∷ ys)) in
    let at_i = get_elem?-middle front (seen ++ y ∷ ys) x i at in
    let where_j : (v : ℕ) → j ≡ length (front ++ v ∷ seen) =
      λ v. omega (arith, length-append front (v ∷ seen)) in
    let at_j : get_elem? arr j ≡ some y =
      ap (λ l. get_elem? l j) (regroup x)
      ∙ get_elem?-middle (front ++ x ∷ seen) ys y j (where_j x) in
    let swapped : set (set arr i y) j x ≡ front ++ y ∷ ((seen ++ x ∷ []) ++ ys) =
      ap (λ l. set l j x) (set-middle front (seen ++ y ∷ ys) x y i at ∙ regroup y)
      ∙ set-middle (front ++ y ∷ seen) ys y x j (where_j y)
      ∙ append_assoc front (y ∷ seen) (x ∷ ys)
      ∙ ap (λ l. front ++ y ∷ l) (sym (append_assoc seen (x ∷ []) ys)) in
    let kept : arr ≡ front ++ x ∷ ((seen ++ y ∷ []) ++ ys) =
      ap (λ l. front ++ x ∷ l) (sym (append_assoc seen (y ∷ []) ys)) in
    let further : (v : ℕ) → j + 1 ≡ i + 1 + length (seen ++ v ∷ []) =
      λ v. omega (arith, length-append seen (v ∷ [])) in
    elim (Bool-cases (ltb x y)) [
      | inl less ↦
          rw (exchange, at_i, at_j, less, swapped)
            (exchange-greatest front y (seen ++ x ∷ []) ys n i (j + 1) at (further x) (omega arith)
              ∙ simp (append_assoc))
      | inr more ↦
          rw (exchange, at_i, at_j, more, kept)
            (exchange-greatest front x (seen ++ y ∷ []) ys n i (j + 1) at (further y) (omega arith)
              ∙ simp (append_assoc))
    ]

-- The numbers from the greatest down, if there are at most so many.
unfoldable pub selected : ℕ → List ℕ → List ℕ
selected zero xs = xs
selected (suc n) [] = []
selected (suc n) (x ∷ xs) = let (m, zs) = greatest x xs in m ∷ selected n zs

pub length-greatest : (x : ℕ) (ys : List ℕ) → length (greatest x ys).1 ≡ length ys
unfolding greatest
length-greatest x [] = refl
length-greatest x (y ∷ ys) = ap suc (length-greatest (if ltb x y then y else x) ys)

sort_loop-selected :
    (n i size : ℕ) (front xs : List ℕ)
    → i ≡ length front
    → size ≡ length front + length xs
    → n + 1 ≡ length xs
    → sort_loop n i size (front ++ xs) ≡ ok (front ++ selected n xs)
unfolding sort_loop selected
sort_loop-selected n i size front [] at e some_left = absurd (omega arith)
sort_loop-selected zero i size front (x ∷ xs) at e some_left = refl
sort_loop-selected (suc n) i size front (x ∷ xs) at e some_left =
    let m = (greatest x xs).0 in
    let zs = (greatest x xs).1 in
    let long = length-greatest x xs in
    let regroup : front ++ m ∷ zs ≡ (front ++ m ∷ []) ++ zs =
      sym (append_assoc front (m ∷ []) zs) in
    let grown = length-append front (m ∷ []) in
    rw
      (
        exchange-greatest front x [] xs (size - (i + 1)) i (i + 1) at (omega arith) (omega arith),
        regroup,
      )
      (sort_loop-selected n (i + 1) size (front ++ m ∷ []) zs (omega arith) (omega arith)
          (omega arith)
        ∙ ap ok (append_assoc front (m ∷ []) (selected n zs)))

-- On the array's numbers, `sorti` gives what the selection of the greatest gives.
pub sorti-selected :
    (x : ℕ) (xs : List ℕ) → sorti (length (x ∷ xs)) (x ∷ xs) ≡ ok (selected (length xs) (x ∷ xs))
unfolding sorti selected
sorti-selected x [] = refl
sorti-selected x (y ∷ ys) =
    let many : (suc (suc (length ys)) == 1) ≡ false = ground arith in
    let rounds : suc (suc (length ys)) - 1 ≡ suc (length ys) = omega arith in
    rw (sorti, many, rounds)
      (sort_loop-selected (suc (length ys)) 0 (suc (suc (length ys))) [] (x ∷ y ∷ ys) refl
        (omega arith) (omega arith))
