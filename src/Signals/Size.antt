-- ===== src/Signals/Size.antt =====
-- How many signals a set of src/imp/22-02.c has.
use tlpiexer.Prelude.{
  ℕ, zero, suc, ◌+◌, ◌≡◌, ◌≤◌, ◌<◌, refl, sym, ap, ◌∙◌, true, false, ◌==◌, if◌then◌else◌, arith,
  Bool-cases, inl, inr,
}
use tlpiexer.Signals.{SigSet, sigaddset}

-- How many of the signals 1 to `n` are in a set
unfoldable pub size : ℕ → SigSet → ℕ
size zero set = 0
size (suc n) set = (if set (n + 1) then 1 else 0) + size n set

pub size-le : (n : ℕ) (set : SigSet) → size n set ≤ n
unfolding size
size-le zero set = omega arith
size-le (suc n) set = let rest = size-le n set in ground arith

-- A set of `n` of them holds them all.
pub size-full : (n : ℕ) (set : SigSet) (k : ℕ) → size n set ≡ n → 1 ≤ k → k ≤ n → set k ≡ true
unfolding size
size-full zero set k full low high = absurd (omega arith)
size-full (suc n) set k full low high =
    let bound = size-le n set in
    elim (Bool-cases (k == n + 1)) [
      | inl last ↦
          let same : k ≡ n + 1 = ground arith in
          let top : set (n + 1) ≡ true = ground arith in ap set same ∙ top
      | inr other ↦ size-full n set k (ground arith) low (ground arith)
    ]

size-outside : (n : ℕ) (set : SigSet) (sig : ℕ) → n < sig → size n (sigaddset set sig) ≡ size n set
unfolding size
size-outside zero set sig out = refl
size-outside (suc n) set sig out = let rest = size-outside n set sig (omega arith) in ground arith

pub size-added :
    (n : ℕ) (set : SigSet) (sig : ℕ)
    → set sig ≡ false
    → 1 ≤ sig
    → sig ≤ n
    → size n (sigaddset set sig) ≡ size n set + 1
unfolding size
size-added zero set sig new low high = absurd (omega arith)
size-added (suc n) set sig new low high = elim (Bool-cases (sig == n + 1)) [
  | inl last ↦
      let same : sig ≡ n + 1 = ground arith in
      let new' : set (n + 1) ≡ false = ap set (sym same) ∙ new in
      let rest = size-outside n set sig (omega arith) in ground arith
  | inr other ↦ let rest = size-added n set sig new low (ground arith) in ground arith
]

pub size-all : (n : ℕ) (set : SigSet) → ((k : ℕ) → 1 ≤ k → k ≤ n → set k ≡ true) → size n set ≡ n
unfolding size
size-all zero set all = refl
size-all (suc n) set all =
    let rest = size-all n set (λ k low high. all k low (omega arith)) in
    let last = all (n + 1) (omega arith) (omega arith) in ground arith
