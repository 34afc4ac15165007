-- ===== src/CText.antt =====
-- C strings in fixed `char` arrays, as lists of bytes. What lies behind the end of the list counts
-- as the terminating NUL.
use tlpiexer.Prelude.{
  ℕ, zero, suc, ◌+◌, ◌≡◌, ◌≢◌, ◌↔◌, refl, Bool, true, false, List, [], ◌∷◌, ◌++◌, arith, ◌==◌,
  if◌then◌else◌, ltb, length, drop, take, Run, ok, fault,
}

abbrev pub Bytes : Type 0
Bytes = List ℕ

-- The string that an array of `n` bytes holds.
unfoldable pub c_str : ℕ → Bytes → Bytes
c_str zero s = []
c_str (suc n) [] = []
c_str (suc n) (c ∷ s) = if c == 0 then [] else c ∷ c_str n s

-- `strncmp(a, b, n) == 0`
unfoldable pub same_str : ℕ → Bytes → Bytes → Bool
same_str zero a b = true
same_str (suc n) [] [] = true
same_str (suc n) [] (y ∷ b) = y == 0
same_str (suc n) (x ∷ a) [] = x == 0
same_str (suc n) (x ∷ a) (y ∷ b) =
    if x == y then (if x == 0 then true else same_str n a b) else false

-- `strncmp` finds two arrays equal exactly when they hold the same string.
pub same_str_iff : (n : ℕ) (a b : Bytes) → (same_str n a b ≡ true) ↔ (c_str n a ≡ c_str n b)
unfolding same_str c_str
same_str_iff zero a b = (λ _. refl, λ _. refl)
same_str_iff (suc n) [] [] = (λ _. refl, λ _. refl)
same_str_iff (suc n) [] (y ∷ b) = (λ h. ground arith, λ h. ground arith)
same_str_iff (suc n) (x ∷ a) [] = (λ h. ground arith, λ h. ground arith)
same_str_iff (suc n) (x ∷ a) (y ∷ b) =
    (λ h. ground (arith, same_str_iff n a b), λ h. ground (arith, same_str_iff n a b))

-- `strcpy` between two arrays of `cap` bytes; a source without its NUL runs past both.
unfoldable pub strcpy : ℕ → Bytes → Bytes → Run Bytes
strcpy cap dst src =
    let s = c_str cap src in
    if ltb (length s) cap then ok (s ++ 0 ∷ drop (length s + 1) dst) else fault

-- `strcmp(a, b) == 0`, for strings given as the bytes before their NUL
unfoldable pub strcmp_eq : Bytes → Bytes → Bool
strcmp_eq [] [] = true
strcmp_eq [] (y ∷ b) = false
strcmp_eq (x ∷ a) [] = false
strcmp_eq (x ∷ a) (y ∷ b) = if x == y then strcmp_eq a b else false

pub strcmp_eq_iff : (a b : Bytes) → (strcmp_eq a b ≡ true) ↔ (a ≡ b)
unfolding strcmp_eq
strcmp_eq_iff [] [] = (λ _. refl, λ _. refl)
strcmp_eq_iff [] (y ∷ b) = (λ h. cc, λ h. cc)
strcmp_eq_iff (x ∷ a) [] = (λ h. cc, λ h. cc)
strcmp_eq_iff (x ∷ a) (y ∷ b) =
    (λ h. ground (arith, strcmp_eq_iff a b), λ h. ground (arith, strcmp_eq_iff a b))

pub strcmp_eq_refl : (a : Bytes) → strcmp_eq a a ≡ true
strcmp_eq_refl a = (strcmp_eq_iff a a).1 refl

-- The `n` bytes that `strncpy` writes: no NUL where the source is longer.
unfoldable pub strncpy : ℕ → Bytes → Bytes
strncpy zero s = []
strncpy (suc n) [] = 0 ∷ strncpy n []
strncpy (suc n) (c ∷ s) = if c == 0 then 0 ∷ strncpy n [] else c ∷ strncpy n s

-- No byte is NUL.
abbrev pub NoNul : Bytes → Type 0
NoNul [] = Unit {0}
NoNul (c ∷ s) = (c ≢ 0) × NoNul s

-- Two strings leave the same bytes exactly when their first `n` bytes agree.
pub strncpy-take :
    (n : ℕ) (a b : Bytes) → NoNul a → NoNul b → (strncpy n a ≡ strncpy n b) ↔ (take n a ≡ take n b)
unfolding strncpy
strncpy-take zero a b na nb = (λ _. refl, λ _. refl)
strncpy-take (suc n) [] [] na nb = (λ _. refl, λ _. refl)
strncpy-take (suc n) [] (y ∷ b) na (ny, nb) = (λ h. ground arith, λ h. ground arith)
strncpy-take (suc n) (x ∷ a) [] (nx, na) nb = (λ h. ground arith, λ h. ground arith)
strncpy-take (suc n) (x ∷ a) (y ∷ b) (nx, na) (ny, nb) =
    (λ h. ground (arith, strncpy-take n a b na nb), λ h. ground (arith, strncpy-take n a b na nb))

-- The lines, each with its newline.
unfoldable pub text : List Bytes → Bytes
text [] = []
text (line ∷ lines) = line ++ 10 ∷ text lines

abbrev pub NoNewline : Bytes → Type 0
NoNewline [] = Unit {0}
NoNewline (c ∷ s) = (c ≢ 10) × NoNewline s
