-- ===== src/LineBuf/Next.antt =====
-- Lines read back by `read_lbuf` (src/lib/59-01.c), from a descriptor that gives all it is asked for.
use tlpiexer.Prelude.{
  drop-Shows, drop-lt, ℕ, zero, suc, ◌+◌, ◌-◌, ◌≡◌, ◌≤◌, ◌<◌, ◌⊎◌, refl, sym, ◌∙◌, false, List, [],
  ◌∷◌, ◌++◌, length, take, drop, arith, ok, inl, inr, pos,
}
use tlpiexer.CText.{Bytes, NoNewline}
use tlpiexer.LineBuf.{Lbuf, finish, scan_line, read_lbuf}
use tlpiexer.LineBuf.Scan.{scan_line-skip, scan_line-line}

-- Where the first `x` behind `line` stands: in the first list, or in the second.
pub append-split {ℓ} :
    {A : Type ℓ} (b u line more : List A) (x : A)
    → b ++ u ≡ line ++ x ∷ more
    → ((t : List A) × (b ≡ line ++ x ∷ t) × (more ≡ t ++ u))
      ⊎ ((s : List A) × (line ≡ b ++ s) × (u ≡ s ++ x ∷ more))
append-split [] u line more x e = inr (line, refl, e)
append-split (y ∷ b) u [] more x e = inl (b, cc, cc)
append-split (y ∷ b) u (z ∷ line) more x e = elim (append-split b u line more x (cc)) [
  | inl (t, p, q) ↦ inl (t, cc, q)
  | inr (s, p, q) ↦ inr (s, cc, q)
]

pub take-length {ℓ} : {A : Type ℓ} (xs ys : List A) → take (length xs) (xs ++ ys) ≡ xs
take-length [] ys = refl
take-length (x ∷ xs) ys = rw (take-length xs ys)

pub drop-length {ℓ} : {A : Type ℓ} (xs ys : List A) → drop (length xs) (xs ++ ys) ≡ ys
drop-length [] ys = refl
drop-length (x ∷ xs) ys = drop-length xs ys

pub NoNewline-append : (a b : Bytes) → NoNewline (a ++ b) → NoNewline a × NoNewline b
NoNewline-append [] b n = (tt, n)
NoNewline-append (c ∷ a) b (n, ns) = let (p, q) = NoNewline-append a b ns in ((n, p), q)

-- The buffer is full, and it and the descriptor hold these bytes behind `cur`.
pub record Ready (size : ℕ) (b : Lbuf) (p : Bytes) : Type 0 where
  pub full : length b.buf ≡ size
  pub inside : b.cur ≤ size
  pub more : b.efile ≡ false
  pub free : b.src.limits ≡ []
  pub pending : drop b.cur b.buf ++ b.src.unread ≡ p

-- A read that gives `n` bytes from behind a line.
pub take_line :
    (s more : Bytes) (n : ℕ)
    → length s < n
    → (take n (s ++ 10 ∷ more) ≡ s ++ 10 ∷ take (n - length s - 1) more)
      × (drop n (s ++ 10 ∷ more) ≡ drop (n - length s - 1) more)
take_line [] more zero h = absurd (omega arith)
take_line [] more (suc n) h = let e : suc n - 0 - 1 ≡ n = omega arith in (rw e, rw e)
take_line (c ∷ s) more zero h = absurd (omega arith)
take_line (c ∷ s) more (suc n) h =
    let (p, q) = take_line s more n (omega arith) in
    let e : suc n - suc (length s) - 1 ≡ n - length s - 1 = omega arith in (rw (e, p), rw (e, q))

-- Where the loop stands before the rest of a line that the buffer holds.
pub found :
    (s : Bytes) (f size lim : ℕ) (b : Lbuf) (seek l : ℕ) (t more : Bytes)
    → NoNewline s
    → length b.buf ≡ size
    → b.efile ≡ false
    → b.src.limits ≡ []
    → drop seek b.buf ≡ s ++ 10 ∷ t
    → l + length s ≤ lim
    → length s < f
    → more ≡ t ++ b.src.unread
    → (scan_line f size lim b seek l ≡ ok (finish b (seek + length s) (l + length s)))
      × Ready size (record b { cur = seek + length s + 1 }) more
found s f size lim b seek l t more n full open' free at fits fuel rest =
    let (_, d) = scan_line-skip s f size lim b seek l (10 ∷ t) n full at fits (omega arith) in
    let h = drop-Shows b.buf (seek + length s) 10 t d in
    let lt = drop-lt b.buf (seek + length s) 10 t d in
    (
      scan_line-line s f size lim b seek l t n full at fits fuel,
      record {
        full = full;
        inside = omega arith;
        more = open';
        free = free;
        pending = rw h.next (sym rest);
      },
    )

-- A line that the buffer holds.
pub next_within :
    (size lim : ℕ) (b : Lbuf) (line more t : Bytes)
    → Ready size b (line ++ 10 ∷ more)
    → NoNewline line
    → length line ≤ lim
    → drop b.cur b.buf ≡ line ++ 10 ∷ t
    → more ≡ t ++ b.src.unread
    → (b' : Lbuf) × (read_lbuf size lim b ≡ ok (pos (length line), line, b')) × Ready size b' more
unfolding read_lbuf
next_within size lim b line more t r n fits at rest =
    let (e, ready) =
      found line (suc lim) size lim b b.cur 0 t more n r.full r.more r.free at (omega arith)
        (omega arith) rest in
    let e0 : 0 + length line ≡ length line = omega arith in
    let e1 : b.cur + length line - b.cur ≡ length line = omega arith in
    let taken : take (b.cur + length line - b.cur) (drop b.cur b.buf) ≡ line =
      rw (e1, at) (take-length line (10 ∷ t)) in
    (record b { cur = b.cur + length line + 1 }, e ∙ rw (e0, taken), ready)
