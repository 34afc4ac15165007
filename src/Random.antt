-- ===== src/Random.antt =====
-- `rrand` of src/lib/random.c and `mk_key` of src/lib/61-06.c; what `rand` returns is given.
pub mod Range
mod Tests
use tlpiexer.Prelude.{
  ℕ, zero, suc, ◌+◌, ◌-◌, ◌%◌, Bool, ◌||◌, Option, none, some, List, [], ◌∷◌, ltb, leb,
  if◌then◌else◌,
}
use tlpiexer.CText.{Bytes}

-- RAND_MAX of the C library
abbrev pub rand_max : ℕ
rand_max = 2147483647

-- `none` is -1, and a number is `*result`. All of it stays below 2 ^ 32.
unfoldable pub rrand : ℕ → ℕ → ℕ → Option ℕ
rrand rand min max =
    if leb max min || ltb rand_max max then none else some (min + 1 + rand % (max - min))

-- The loop of `mk_key`, with `left` bytes still to make from byte `i` on; `none` is -1.
unfoldable pub key_loop : (ℕ → ℕ) → ℕ → ℕ → Option Bytes
key_loop rand zero i = some []
key_loop rand (suc left) i = elim (rrand (rand i) 0 255) [
  | none ↦ none
  | some n ↦ elim (key_loop rand left (suc i)) [ none ↦ none | some key ↦ some (n % 256 ∷ key) ]
]

unfoldable pub mk_key : (ℕ → ℕ) → Option Bytes
mk_key rand = key_loop rand 16 0
