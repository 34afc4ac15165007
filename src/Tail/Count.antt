-- ===== src/Tail/Count.antt =====
-- Newlines behind a position of a file, and what the inner loop of `showline` (src/imp/13-5.c) counts.
use tlpiexer.Prelude.{
  ℕ, zero, suc, ◌+◌, ◌≡◌, ◌≤◌, ◌<◌, refl, sym, ap, ◌∙◌, false, Option, none, some, [], ◌∷◌, ◌==◌,
  ltb, if◌then◌else◌, length, take, drop, arith, Bool-cases, inl, inr,
}
use tlpiexer.CText.{Bytes}
use tlpiexer.Tail.{byte_at, scan}

unfoldable pub newlines : Bytes → ℕ
newlines [] = 0
newlines (c ∷ s) = let n = newlines s in if c == 10 then n + 1 else n

newlines-drop :
    (i : ℕ) (s : Bytes)
    → i < length s
    → newlines (drop i s)
      ≡ (if byte_at s i == 10 then newlines (drop (suc i) s) + 1 else newlines (drop (suc i) s))
unfolding newlines byte_at
newlines-drop i [] h = absurd (omega arith)
newlines-drop zero (c ∷ s) h = refl
newlines-drop (suc i) (c ∷ s) h = newlines-drop i s (omega arith)

byte_at-take : (k : ℕ) (s : Bytes) (i : ℕ) → i < k → byte_at (take k s) i ≡ byte_at s i
unfolding byte_at
byte_at-take zero s i h = absurd (omega arith)
byte_at-take (suc k) [] i h = refl
byte_at-take (suc k) (c ∷ s) zero h = refl
byte_at-take (suc k) (c ∷ s) (suc i) h = byte_at-take k s i (omega arith)

byte_at-drop : (o : ℕ) (s : Bytes) (i : ℕ) → byte_at (drop o s) i ≡ byte_at s (o + i)
unfolding byte_at
byte_at-drop zero s i = ap (byte_at s) (omega arith)
byte_at-drop (suc o) [] i = refl
byte_at-drop (suc o) (c ∷ s) i =
    let e : suc o + i ≡ suc (o + i) = omega arith in
    byte_at-drop o s i ∙ sym (ap (byte_at (c ∷ s)) e)

-- Over the block of `k` bytes from `o` on: the loop ends early at a newline behind which there are
-- `numline` more, or has counted every newline from `o` on.
abbrev pub Scanned : Bytes → ℕ → ℕ → ℕ → ℕ × Option ℕ → Type 0
Scanned file o k numline (numlf, none) = (numlf ≡ newlines (drop o file)) × (numlf ≤ numline)
Scanned file o k numline (numlf, some j) =
    (j < k) × (byte_at file (o + j) ≡ 10) × (newlines (drop (suc (o + j)) file) ≡ numline)

module _ (file : Bytes) (o k numline : ℕ) (inside : o + k ≤ length file) where
  pub scan-Scanned :
      (i numlf : ℕ)
      → i ≤ k
      → numlf ≡ newlines (drop (o + i) file)
      → numlf ≤ numline
      → Scanned file o k numline (scan i (take k (drop o file)) numlf numline)
  unfolding scan
  scan-Scanned zero numlf small counted few =
      let e : o + 0 ≡ o = omega arith in (counted ∙ ap (λ p. newlines (drop p file)) e, few)
  scan-Scanned (suc i) numlf small counted few =
      let at = byte_at-take k (drop o file) i (omega arith) ∙ byte_at-drop o file i in
      let e : o + suc i ≡ suc (o + i) = omega arith in
      let behind : numlf ≡ newlines (drop (suc (o + i)) file) =
        counted ∙ ap (λ p. newlines (drop p file)) e in
      let here = newlines-drop (o + i) file (omega arith) in
      elim (Bool-cases (byte_at file (o + i) == 10)) [
        | inl newline ↦ elim (Bool-cases (ltb numline (numlf + 1))) [
          | inl over ↦ rw (at, newline, over) (omega arith, ground arith, ground arith)
          | inr under ↦
              rw (at, newline, under)
                (scan-Scanned i (numlf + 1) (omega arith) (ground arith) (ground arith))
        ]
        | inr other ↦
            let under : ltb numline numlf ≡ false = ground arith in
            rw (at, other, under) (scan-Scanned i numlf (omega arith) (ground arith) few)
      ]
