-- ===== src/RealPath/Parts.antt =====
-- The array of `solve_dot` of src/imp/18-03.c: what is written of it, and what is still to be read.
use tlpiexer.Prelude.{
  ℕ, zero, suc, ◌+◌, ◌≡◌, ◌≢◌, ◌≤◌, ◌<◌, refl, ap, ◌∙◌, false, List, [], ◌∷◌, ◌++◌, ◌==◌, length,
  length-append, take, drop, get_elem?, set, drop-Shows, drop-lt, append_assoc, append-nil, arith,
}
use tlpiexer.CText.{Bytes}
use tlpiexer.RealPath.{dot_loop}

module _ {ℓ} {A : Type ℓ} where
  pub take-set :
      (xs : List A) (j : ℕ) (c : A)
      → j < length xs
      → take (j + 1) (set xs j c) ≡ take j xs ++ c ∷ []
  take-set [] j c h = absurd (omega arith)
  take-set (x ∷ xs) zero c h = refl
  take-set (x ∷ xs) (suc j) c h =
      let e : suc j + 1 ≡ suc (j + 1) = omega arith in rw (e, take-set xs j c (omega arith))

  pub drop-set : (xs : List A) (j k : ℕ) (c : A) → j < k → drop k (set xs j c) ≡ drop k xs
  drop-set [] j k c h = refl
  drop-set (x ∷ xs) j zero c h = absurd (omega arith)
  drop-set (x ∷ xs) zero (suc k) c h = refl
  drop-set (x ∷ xs) (suc j) (suc k) c h = drop-set xs j k c (omega arith)

  -- An element behind `a` of what is taken.
  pub take-elem :
      (xs : List A) (j : ℕ) (a b : List A) (k : ℕ)
      → take j xs ≡ a ++ b
      → k < length b
      → get_elem? xs (length a + k) ≡ get_elem? b k
  take-elem xs zero [] b k e h = absurd (omega (arith, ap length e))
  take-elem xs zero (y ∷ a) b k e h = cc
  take-elem [] (suc j) [] b k e h = absurd (omega (arith, ap length e))
  take-elem [] (suc j) (y ∷ a) b k e h = cc
  take-elem (x ∷ xs) (suc j) [] [] k e h = cc
  take-elem (x ∷ xs) (suc j) [] (y ∷ b) zero e h = cc
  take-elem (x ∷ xs) (suc j) [] (y ∷ b) (suc k) e h =
      let z : 0 + suc k ≡ suc (0 + k) = omega arith in
      rw z (take-elem xs j [] b k (cc) (omega arith))
  take-elem (x ∷ xs) (suc j) (y ∷ a) b k e h =
      let z : suc (length a) + k ≡ suc (length a + k) = omega arith in
      rw z (take-elem xs j a b k (cc) h)

  pub take-front :
      (xs : List A) (j : ℕ) (a b : List A) → take j xs ≡ a ++ b → take (length a) xs ≡ a
  take-front xs j [] b e = refl
  take-front xs zero (y ∷ a) b e = cc
  take-front [] (suc j) (y ∷ a) b e = cc
  take-front (x ∷ xs) (suc j) (y ∷ a) b e =
      let h : take (length a) xs ≡ a = take-front xs j a b (cc) in cc (h, e)

-- The first `j` bytes of the path are `out`, and `rest` is to be read from `i` on.
pub record At (path : Bytes) (i j : ℕ) (out rest : Bytes) : Type 0 where
  pub written : take j path ≡ out
  pub left : drop i path ≡ rest
  pub near : j ≤ i
  pub size : j ≡ length out

-- A byte goes from `i` to `j`.
pub At-byte :
    (path : Bytes) (i j : ℕ) (out : Bytes) (c : ℕ) (rest : Bytes)
    → At path i j out (c ∷ rest)
    → At (set path j c) (i + 1) (j + 1) (out ++ c ∷ []) rest
At-byte path i j out c rest a =
    let lt = drop-lt path i c rest a.left in
    let near = a.near in
    record {
      written = take-set path j c (omega arith) ∙ ap (λ o. o ++ c ∷ []) a.written;
      left = drop-set path j (i + 1) c (omega arith) ∙ (drop-Shows path i c rest a.left).next;
      near = omega arith;
      size = omega (arith, a.size, length-append out (c ∷ []));
    }

abbrev pub NoSlash : Bytes → Type 0
NoSlash [] = Unit {0}
NoSlash (c ∷ s) = (c ≢ 47) × NoSlash s

-- The loop copies bytes that are no slashes.
pub dot_loop-copy :
    (n : Bytes) (left k i j jx jy : ℕ) (path out rest : Bytes)
    → NoSlash n
    → left ≡ length n + k
    → At path i j out (n ++ rest)
    → (path' : Bytes) × (dot_loop left i (record { path = path; j = j; jx = jx; jy = jy })
        ≡ dot_loop k (i + length n) (record { path = path'; j = j + length n; jx = jx; jy = jy }))
      × At path' (i + length n) (j + length n) (out ++ n) rest
unfolding dot_loop
dot_loop-copy [] left k i j jx jy path out rest none_there e a =
    let e0 : left ≡ k = omega arith in
    let e1 : i + 0 ≡ i = omega arith in
    let e2 : j + 0 ≡ j = omega arith in (path, rw (e0, e1, e2), rw (e1, e2, append-nil out) a)
dot_loop-copy (c ∷ n) left k i j jx jy path out rest (nc, ns) e a =
    let e0 : left ≡ suc (length n + k) = omega arith in
    let other : (c == 47) ≡ false = ground arith in
    let found = (drop-Shows path i c (n ++ rest) a.left).elem in
    let (path', same, a') =
      dot_loop-copy n (length n + k) k (i + 1) (j + 1) jx jy (set path j c) (out ++ c ∷ []) rest ns
        refl (At-byte path i j out c (n ++ rest) a) in
    let e1 : i + suc (length n) ≡ i + 1 + length n = omega arith in
    let e2 : j + suc (length n) ≡ j + 1 + length n = omega arith in
    let e3 = append_assoc out (c ∷ []) n in
    (path', rw (e0, dot_loop, found, other, e1, e2) same, rw (e1, e2, ← e3) a')
