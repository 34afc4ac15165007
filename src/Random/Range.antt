-- ===== src/Random/Range.antt =====
-- Which numbers `rrand` (src/lib/random.c) gives, and what `mk_key` (src/lib/61-06.c) makes of them.
use tlpiexer.Prelude.{
  ℕ, zero, suc, ◌+◌, ◌-◌, ◌%◌, ◌≤◌, ◌<◌, ◌≡◌, ◌↔◌, refl, sym, ap, ◌∙◌, false, Option, some, [], ◌∷◌,
  ltb, leb, length, arith,
}
use native.Mathlib.Nat.{mod-lt, mod-eq_of_lt}
use tlpiexer.CText.{Bytes}
use tlpiexer.Random.{rand_max, rrand, key_loop, mk_key}

rrand-value :
    (rand min max : ℕ)
    → min < max
    → max ≤ rand_max
    → rrand rand min max ≡ some (min + 1 + rand % (max - min))
unfolding rrand
rrand-value rand min max order small =
    let lower : leb max min ≡ false = ground arith in
    let upper : ltb rand_max max ≡ false = ground arith in rw (rrand, lower, upper)

-- A number below the size is its own remainder.
remainder :
    (n min max r : ℕ) → min < max → n < max - min → min + 1 + n ≡ r → min + 1 + n % (max - min) ≡ r
remainder n min max r order below e = let m = mod-eq_of_lt below in omega arith

some-eq : {m n : ℕ} → Option.some m ≡ some n → m ≡ n
some-eq h = cc

-- Between bounds in order, not above RAND_MAX, `rrand` gives the numbers above the lower one, up to the
-- upper one, and by some value of `rand` each of them; the lower bound itself never comes.
pub rrand-range :
    (min max : ℕ)
    → min < max
    → max ≤ rand_max
    → (r : ℕ) → ((min < r) × (r ≤ max)) ↔ ((rand : ℕ) × (rrand rand min max ≡ some r))
rrand-range min max order small r = (
  λ (low, high). (
    r - min - 1,
    rrand-value (r - min - 1) min max order small
        ∙ ap some (remainder (r - min - 1) min max r order (omega arith) (omega arith)),
  ),
  λ (rand, e).
      let v = some-eq (sym (rrand-value rand min max order small) ∙ e) in
      let room : 0 < max - min = omega arith in
      let m = mod-lt rand room in (omega arith, omega arith),
)

-- Every byte is from 1 to 255, so that no byte of the key is NUL.
abbrev pub KeyBytes : Bytes → Type 0
KeyBytes [] = Unit {0}
KeyBytes (b ∷ key) = ((1 ≤ b) × (b ≤ 255)) × KeyBytes key

key_loop-bytes :
    (rand : ℕ → ℕ) (left i : ℕ)
    → (key : Bytes) × (key_loop rand left i ≡ some key) × (length key ≡ left) × KeyBytes key
unfolding key_loop
key_loop-bytes rand zero i = ([], refl, refl, tt)
key_loop-bytes rand (suc left) i =
    let v = rrand-value (rand i) 0 255 (omega arith) (omega arith) in
    let n = 0 + 1 + rand i % (255 - 0) in
    let m : rand i % 255 < 255 = omega arith in
    let (key, e, l, bytes) = key_loop-bytes rand left (suc i) in
    (n % 256 ∷ key, rw (key_loop, v, e), ap suc l, ((omega arith, omega arith), bytes))

-- `mk_key` always makes a key, of 16 bytes from 1 to 255.
pub mk_key-bytes :
    (rand : ℕ → ℕ) → (key : Bytes) × (mk_key rand ≡ some key) × (length key ≡ 16) × KeyBytes key
unfolding mk_key
mk_key-bytes rand = key_loop-bytes rand 16 0
