-- ===== src/Prelude/Lists.antt =====
-- Lists measured and indexed by native numbers, under the library's names.
use Prim.Native.Nat.{ℕ, zero, suc, ◌+◌, ◌-◌, ◌≤◌, ◌<◌, min}
use mathlib.Core.Path.{◌≡◌, refl, sym, ap, ◌∙◌}
use mathlib.Core.List.{List, [], ◌∷◌, ◌++◌}
use mathlib.Core.Option.{Option, none, some}
use native.Mathlib.Omega.{arith}

module _ {ℓ} {A : Type ℓ} where
  abbrev pub length : List A → ℕ
  length [] = 0
  length (x ∷ xs) = suc (length xs)

  abbrev pub get_elem? : List A → ℕ → Option A
  get_elem? [] i = none
  get_elem? (x ∷ xs) zero = some x
  get_elem? (x ∷ xs) (suc i) = get_elem? xs i

  abbrev pub take : ℕ → List A → List A
  take zero xs = []
  take (suc n) [] = []
  take (suc n) (x ∷ xs) = x ∷ take n xs

  abbrev pub drop : ℕ → List A → List A
  drop zero xs = xs
  drop (suc n) [] = []
  drop (suc n) (x ∷ xs) = drop n xs

  -- A write out of bounds changes nothing.
  abbrev pub set : List A → ℕ → A → List A
  set [] i v = []
  set (x ∷ xs) zero v = v ∷ xs
  set (x ∷ xs) (suc i) v = x ∷ set xs i v

  pub length-append : (xs ys : List A) → length (xs ++ ys) ≡ length xs + length ys
  length-append [] ys = omega arith
  length-append (x ∷ xs) ys = omega (arith, length-append xs ys)

  pub take-append-drop : (n : ℕ) (xs : List A) → take n xs ++ drop n xs ≡ xs
  take-append-drop zero xs = refl
  take-append-drop (suc n) [] = refl
  take-append-drop (suc n) (x ∷ xs) = rw (take-append-drop n xs)

  pub length-take : (n : ℕ) (xs : List A) → length (take n xs) ≡ min n (length xs)
  length-take zero xs = omega arith
  length-take (suc n) [] = omega arith
  length-take (suc n) (x ∷ xs) = omega (arith, length-take n xs)

  pub length-drop : (n : ℕ) (xs : List A) → length (drop n xs) ≡ length xs - n
  length-drop zero xs = omega arith
  length-drop (suc n) [] = omega arith
  length-drop (suc n) (x ∷ xs) = omega (arith, length-drop n xs)

  take-nil : (n : ℕ) → take n [] ≡ []
  take-nil zero = refl
  take-nil (suc n) = refl

  drop-nil : (n : ℕ) → drop n [] ≡ []
  drop-nil zero = refl
  drop-nil (suc n) = refl

  pub take-add : (m n : ℕ) (xs : List A) → take (m + n) xs ≡ take m xs ++ take n (drop m xs)
  take-add zero n xs = let e : 0 + n ≡ n = omega arith in ap (λ k. take k xs) e
  take-add (suc m) n [] = take-nil (suc m + n) ∙ sym (take-nil n)
  take-add (suc m) n (x ∷ xs) =
      let e : suc m + n ≡ suc (m + n) = omega arith in
      ap (λ k. take k (x ∷ xs)) e ∙ ap (λ l. x ∷ l) (take-add m n xs)

  pub drop-add : (m n : ℕ) (xs : List A) → drop (m + n) xs ≡ drop n (drop m xs)
  drop-add zero n xs = let e : 0 + n ≡ n = omega arith in ap (λ k. drop k xs) e
  drop-add (suc m) n [] = drop-nil (suc m + n) ∙ sym (drop-nil n)
  drop-add (suc m) n (x ∷ xs) =
      let e : suc m + n ≡ suc (m + n) = omega arith in ap (λ k. drop k (x ∷ xs)) e ∙ drop-add m n xs

  pub take-length-take : (m : ℕ) (xs : List A) → take (length (take m xs)) xs ≡ take m xs
  take-length-take zero xs = refl
  take-length-take (suc m) [] = refl
  take-length-take (suc m) (x ∷ xs) = rw (take-length-take m xs)

  -- A prefix of a prefix.
  pub take-prefix : (n m : ℕ) (xs : List A) → (k : ℕ) × (take n (take m xs) ≡ take k xs)
  take-prefix zero m xs = (0, refl)
  take-prefix (suc n) zero xs = (0, refl)
  take-prefix (suc n) (suc m) [] = (0, refl)
  take-prefix (suc n) (suc m) (x ∷ xs) = let (k, e) = take-prefix n m xs in (suc k, rw e)

  pub take-full : (n : ℕ) (xs : List A) → length (take n xs) ≡ length xs → take n xs ≡ xs
  take-full zero [] e = refl
  take-full zero (x ∷ xs) e = absurd (omega arith)
  take-full (suc n) [] e = refl
  take-full (suc n) (x ∷ xs) e = rw (take-full n xs (omega arith))

  pub take-all : (n : ℕ) (xs : List A) → length xs ≤ n → take n xs ≡ xs
  take-all zero [] h = refl
  take-all zero (x ∷ xs) h = absurd (omega arith)
  take-all (suc n) [] h = refl
  take-all (suc n) (x ∷ xs) h = ap (λ l. x ∷ l) (take-all n xs (omega arith))

  pub drop-all : (n : ℕ) (xs : List A) → length xs ≤ n → drop n xs ≡ []
  drop-all zero [] h = refl
  drop-all zero (x ∷ xs) h = absurd (omega arith)
  drop-all (suc n) [] h = refl
  drop-all (suc n) (x ∷ xs) h = drop-all n xs (omega arith)

-- What `drop` shows of a list.
pub record Shows {ℓ} {A : Type ℓ} (xs : List A) (k : ℕ) (x : A) (rest : List A) : Type ℓ where
  pub elem : get_elem? xs k ≡ some x
  pub next : drop (k + 1) xs ≡ rest

pub drop-Shows {ℓ} :
    {A : Type ℓ} (xs : List A) (k : ℕ) (x : A) (rest : List A)
    → drop k xs ≡ x ∷ rest
    → Shows xs k x rest
drop-Shows [] zero x rest e = record { elem = cc; next = cc }
drop-Shows [] (suc k) x rest e = record { elem = cc; next = cc }
drop-Shows (y ∷ xs) zero x rest e = record { elem = cc; next = cc }
drop-Shows (y ∷ xs) (suc k) x rest e =
    let h = drop-Shows xs k x rest e in
    let s : suc k + 1 ≡ suc (k + 1) = omega arith in
    record { elem = h.elem; next = ap (λ n. drop n (y ∷ xs)) s ∙ h.next }

pub drop-lt {ℓ} :
    {A : Type ℓ} (xs : List A) (k : ℕ) (x : A) (rest : List A)
    → drop k xs ≡ x ∷ rest
    → k < length xs
drop-lt [] zero x rest e = cc
drop-lt [] (suc k) x rest e = cc
drop-lt (y ∷ xs) zero x rest e = omega arith
drop-lt (y ∷ xs) (suc k) x rest e = omega (arith, drop-lt xs k x rest e)
