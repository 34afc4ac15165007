-- ===== src/Signals/Raise.antt =====
-- Which signals the program of src/imp/22-02.c raises.
use tlpiexer.Prelude.{
  ℕ, zero, suc, ◌+◌, ◌≡◌, ◌≤◌, ◌<◌, refl, sym, ap, ◌∙◌, true, false, List, [], ◌∷◌, ◌++◌, ◌==◌, ltb,
  if◌then◌else◌, arith, count, count-append, Returns, Bool-cases, inl, inr,
}
use tlpiexer.Signals.{
  sigkill, sigstop, SigSet, sigaddset, rrand, no_signal, raise_loop, raise_stdsignal,
}
use tlpiexer.Signals.Size.{size, size-le, size-full, size-added, size-all}

-- SIGKILL and SIGSTOP, each once
abbrev kept_back : ℕ → ℕ
kept_back k = (if k == sigkill then 1 else 0) + (if k == sigstop then 1 else 0)

-- Where the loop is: `sig_done` is SIGKILL, SIGSTOP and what was raised, each once; it has what `rand` gave.
record Raised (rand : ℕ → ℕ) (i : ℕ) (sig_done : SigSet) (nsig_done : ℕ) (raised : List ℕ)
    : Type 0 where
  sized : nsig_done ≡ size 31 sig_done
  once : (k : ℕ) → count k raised + kept_back k ≡ (if sig_done k then 1 else 0)
  inside : (k : ℕ) → sig_done k ≡ true → (1 ≤ k) × (k ≤ 31)
  seen : (j : ℕ) → j < i → sig_done (rrand 1 31 (rand j)) ≡ true

-- How often the signal is raised: once, if it is a standard one but SIGKILL and SIGSTOP
abbrev pub times : ℕ → ℕ
times k =
    if k == sigkill
    then 0
    else if k == sigstop
    then 0
    else if ltb 0 k
    then (if ltb k 32 then 1 else 0)
    else 0

times-in : (c k : ℕ) → c + kept_back k ≡ 1 → 1 ≤ k → k ≤ 31 → c ≡ times k
times-in c k e low high = ground arith

times-out : (c k : ℕ) → c + kept_back k ≡ 0 → (1 ≤ k → k ≤ 31 → ⊥) → c ≡ times k
times-out c k e out = ground arith

-- At 31 signals all are done.
Raised-end :
    {rand : ℕ → ℕ} {i : ℕ} (sig_done : SigSet) {nsig_done : ℕ} {raised : List ℕ}
    → Raised rand i sig_done nsig_done raised
    → 31 ≤ nsig_done
    → (k : ℕ) → count k raised ≡ times k
Raised-end sig_done {nsig_done} {raised} inv enough k =
    let full : size 31 sig_done ≡ 31 = omega (arith, size-le 31 sig_done, inv.sized) in
    let counted = inv.once k in
    elim (Bool-cases (sig_done k)) [
      | inl here ↦
          let (low, high) = inv.inside k here in
          times-in (count k raised) k (counted ∙ ap (λ b. if b then 1 else 0) here) low high
      | inr gone ↦
          times-out (count k raised) k (counted ∙ ap (λ b. if b then 1 else 0) gone)
            (λ low high. let there = size-full 31 sig_done k full low high in cc)
    ]

Raised-repeat :
    {rand : ℕ → ℕ} {i : ℕ} (sig_done : SigSet) {nsig_done : ℕ} {raised : List ℕ}
    → Raised rand i sig_done nsig_done raised
    → sig_done (rrand 1 31 (rand i)) ≡ true
    → Raised rand (i + 1) sig_done nsig_done raised
Raised-repeat {rand} {i} sig_done inv known = record {
  sized = inv.sized;
  once = inv.once;
  inside = inv.inside;
  seen = λ j h. elim (Bool-cases (j == i)) [
    | inl last ↦
        let same : j ≡ i = ground arith in ap (λ x. sig_done (rrand 1 31 (rand x))) same ∙ known
    | inr other ↦ inv.seen j (ground arith)
  ];
}

added-once :
    (c sig k : ℕ) (sig_done : SigSet)
    → sig_done sig ≡ false
    → c + kept_back k ≡ (if sig_done k then 1 else 0)
    → c + ((if sig == k then 1 else 0) + 0) + kept_back k
      ≡ (if sigaddset sig_done sig k then 1 else 0)
added-once c sig k sig_done new e = elim (Bool-cases (k == sig)) [
  | inl same ↦
      let is : k ≡ sig = ground arith in
      let fresh : sig_done k ≡ false = ap sig_done is ∙ new in ground arith
  | inr other ↦ ground arith
]

added : (sig_done : SigSet) (sig : ℕ) → sigaddset sig_done sig sig ≡ true
added sig_done sig = ground arith

still : (sig_done : SigSet) (sig k : ℕ) → sig_done k ≡ true → sigaddset sig_done sig k ≡ true
still sig_done sig k h = ground arith

Raised-raise :
    {rand : ℕ → ℕ} {i : ℕ} (sig_done : SigSet) {nsig_done : ℕ} {raised : List ℕ}
    → Raised rand i sig_done nsig_done raised
    → sig_done (rrand 1 31 (rand i)) ≡ false
    → (let sig = rrand 1 31 (rand i) in
        Raised rand (i + 1) (sigaddset sig_done sig) (nsig_done + 1) (raised ++ sig ∷ []))
Raised-raise {rand} {i} sig_done {nsig_done} {raised} inv new =
    let sig : ℕ = rrand 1 31 (rand i) in
    let low : 1 ≤ sig = omega arith in
    let high : sig ≤ 31 = omega arith in
    record {
      sized = omega (arith, size-added 31 sig_done sig new low high, inv.sized);
      once = λ k.
          ap (λ c. c + kept_back k) (count-append k raised (sig ∷ []))
          ∙ added-once (count k raised) sig k sig_done new (inv.once k);
      inside = λ k h. elim (Bool-cases (k == sig)) [
        | inl same ↦ let is : k ≡ sig = ground arith in (omega arith, omega arith)
        | inr other ↦ inv.inside k (ground arith)
      ];
      seen = λ j h. elim (Bool-cases (j == i)) [
        | inl last ↦
            let same : i ≡ j = ground arith in
            ap (λ x. sigaddset sig_done sig (rrand 1 31 (rand x))) (sym same) ∙ added sig_done sig
        | inr other ↦ still sig_done sig (rrand 1 31 (rand j)) (inv.seen j (ground arith))
      ];
    }

-- By call `n` of `rand` each number from 1 to 31 has come.
abbrev pub AllCome : ℕ → (ℕ → ℕ) → Type 0
AllCome n rand = (k : ℕ) → 1 ≤ k → k ≤ 31 → (j : ℕ) × (j < n) × (rrand 1 31 (rand j) ≡ k)

not_below : (n : ℕ) → 31 ≤ n → ltb n 31 ≡ false
not_below n h = ground arith

reached : (n : ℕ) → ltb n 31 ≡ false → 31 ≤ n
reached n h = ground arith

raise_loop-times :
    (fuel : ℕ) (rand : ℕ → ℕ) (i : ℕ) (sig_done : SigSet) (nsig_done : ℕ) (raised : List ℕ)
    → Raised rand i sig_done nsig_done raised
    → AllCome (i + fuel) rand
    → Returns
        (λ raised. (k : ℕ) → count k raised ≡ times k)
        (raise_loop fuel rand i sig_done nsig_done raised)
unfolding raise_loop
raise_loop-times zero rand i sig_done nsig_done raised inv come =
    let all : (k : ℕ) → 1 ≤ k → k ≤ 31 → sig_done k ≡ true = λ k low high.
      let (j, before, is) = come k low high in ap sig_done (sym is) ∙ inv.seen j (omega arith) in
    let enough : 31 ≤ nsig_done = omega (arith, size-all 31 sig_done all, inv.sized) in
    let over : ltb nsig_done 31 ≡ false = not_below nsig_done enough in
    rw (raise_loop, over) (Raised-end sig_done inv enough)
raise_loop-times (suc fuel) rand i sig_done nsig_done raised inv come =
    elim (Bool-cases (ltb nsig_done 31)) [
      | inr over ↦
          let enough : 31 ≤ nsig_done = reached nsig_done over in
          rw (raise_loop, over) (Raised-end sig_done inv enough)
      | inl below ↦
          let come' : AllCome (i + 1 + fuel) rand =
            λ k low high. let (j, before, is) = come k low high in (j, omega arith, is) in
          elim (Bool-cases (sig_done (rrand 1 31 (rand i)))) [
            | inl known ↦
                rw (raise_loop, below, known)
                  (raise_loop-times fuel rand (i + 1) sig_done nsig_done raised
                    (Raised-repeat sig_done inv known) come')
            | inr new ↦
                rw (raise_loop, below, new)
                  (raise_loop-times fuel rand (i + 1) _ (nsig_done + 1) _
                    (Raised-raise sig_done inv new) come')
          ]
    ]

at_start : (rand : ℕ → ℕ) → Raised rand 0 (sigaddset (sigaddset no_signal sigkill) sigstop) 2 []
unfolding size
at_start rand = record {
  sized = refl;
  once = λ k. ground arith;
  inside = λ k h. ground arith;
  seen = λ j h. absurd (omega arith);
}

-- If each number from 1 to 31 comes among the first `fuel` results of `rrand`, `raise_stdsignal` ends, and has raised
-- each standard signal once, but SIGKILL and SIGSTOP, and no other signal.
pub raise_stdsignal-times :
    (fuel : ℕ) (rand : ℕ → ℕ)
    → AllCome fuel rand
    → Returns (λ raised. (k : ℕ) → count k raised ≡ times k) (raise_stdsignal fuel rand)
unfolding raise_stdsignal
raise_stdsignal-times fuel rand come =
    raise_loop-times fuel rand 0 _ 2 [] (at_start rand)
      (λ k low high. let (j, before, is) = come k low high in (j, omega arith, is))
