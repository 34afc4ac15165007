-- ===== src/LineBuf/Bounds.antt =====
-- That `read_lbuf` (src/lib/59-01.c) ends, and how much it copies.
use tlpiexer.Prelude.{
  ℕ, zero, suc, ◌+◌, ◌-◌, ◌≡◌, ◌≤◌, ◌<◌, refl, none, some, Option, [], ◌==◌, ltb, if◌then◌else◌,
  length, length-take, drop, arith, Run, ok, fault, out_of_fuel, inl, inr, pos, fn_er, Bool-cases,
  get_elem?,
}
use tlpiexer.LineBuf.{
  Lbuf, Out, Refill, filled, ended, failed, overlaps, refill, finish, scan_line, read_lbuf,
}

-- The call did not run out of fuel, and what it copied has at most `lim` bytes.
abbrev pub Bounded : ℕ → Run Out → Type 0
Bounded lim (ok (n, line, b)) = length line ≤ lim
Bounded lim fault = Unit {0}
Bounded lim out_of_fuel = ⊥

-- The end of a line of which `l` bytes are read.
finish-Bounded :
    (lim : ℕ) (b : Lbuf) (s l : ℕ) → s ≤ b.cur + l → l ≤ lim → Bounded lim (ok (finish b s l))
finish-Bounded lim b s l near small = omega (arith, length-take (s - b.cur) (drop b.cur b.buf))

-- The front of the buffer after a refill.
refill-cur :
    (size : ℕ) (b b' : Lbuf) (s : ℕ)
    → refill size b ≡ filled b' s
    → (b'.cur ≡ 0) × (s ≡ size - b.cur)
unfolding refill
refill-cur size b b' s e = ground arith

-- What the loop does with the byte at `s`, `rest` being the rounds behind it.
look-Bounded :
    (lim : ℕ) (b : Lbuf) (s l : ℕ) (rest : Run Out) (c : Option ℕ)
    → s ≤ b.cur + l
    → l ≤ lim
    → (l + 1 ≤ lim → Bounded lim rest)
    → Bounded lim (elim c [
      | none ↦ fault
      | some c ↦
          if c == 10 then ok (finish b s l) else if ltb lim (l + 1) then ok (fn_er, [], b) else rest
    ])
look-Bounded lim b s l rest none near small next = tt
look-Bounded lim b s l rest (some c) near small next = elim (Bool-cases (c == 10)) [
  | inl newline ↦ rw newline (finish-Bounded lim b s l near small)
  | inr other ↦ elim (Bool-cases (ltb lim (l + 1))) [
    | inl long ↦ rw (other, long) (omega arith)
    | inr fits ↦ rw (other, fits) (next (ground arith))
  ]
]

-- What the loop does with the outcome of a refill.
refill-Bounded :
    (f size lim : ℕ) (b : Lbuf) (l : ℕ) (r : Refill)
    → refill size b ≡ r
    → size ≤ b.cur + l
    → l ≤ lim
    → ((b' : Lbuf) (s : ℕ)
        → s + 1 ≤ b'.cur + (l + 1)
        → l + 1 ≤ lim
        → Bounded lim (scan_line f size lim b' (s + 1) (l + 1)))
    → Bounded lim (elim r [
      | filled b' s ↦ (elim (get_elem? b'.buf s) [
        | none ↦ fault
        | some c ↦
            if c == 10
            then ok (finish b' s l)
            else if ltb lim (l + 1)
            then ok (fn_er, [], b')
            else scan_line f size lim b' (s + 1) (l + 1)
      ])
      | ended b' ↦ ok (pos 0, [], b')
      | failed b' ↦ ok (fn_er, [], b')
      | overlaps ↦ fault
    ])
refill-Bounded f size lim b l (filled b' s) e near small next =
    let (cur, at) = refill-cur size b b' s e in
    look-Bounded lim b' s l _ (get_elem? b'.buf s) (omega arith) small
      (λ fits. next b' s (omega arith) fits)
refill-Bounded f size lim b l (ended b') e near small next = omega arith
refill-Bounded f size lim b l (failed b') e near small next = omega arith
refill-Bounded f size lim b l overlaps e near small next = tt

scan_line-Bounded :
    (f size lim : ℕ) (b : Lbuf) (s l : ℕ)
    → s ≤ b.cur + l
    → l ≤ lim
    → lim < f + l
    → Bounded lim (scan_line f size lim b s l)
unfolding scan_line refill
scan_line-Bounded zero size lim b s l near small fuel = absurd (omega arith)
scan_line-Bounded (suc f) size lim b s l near small fuel = elim (Bool-cases (s == size)) [
  | inr off ↦ rw off (
      look-Bounded lim b s l _ (get_elem? b.buf s) near small
        (λ fits. scan_line-Bounded f size lim b (s + 1) (l + 1) (omega arith) fits (omega arith)))
  | inl at ↦ elim (Bool-cases b.efile) [
    | inl done ↦ simp (at, done) (finish-Bounded lim b s l near small)
    | inr more ↦
        simp (at, more)
          (refill-Bounded f size lim b l (refill size b) refl (ground arith) small
            (λ b' s' near' fits.
              scan_line-Bounded f size lim b' (s' + 1) (l + 1) near' fits (omega arith)))
  ]
]

-- On every buffer the loop of `read_lbuf` ends within the fuel of the call, and where the call returns it
-- has copied at most `lim` bytes, the size of the caller's line.
pub read_lbuf-Bounded : (size lim : ℕ) (b : Lbuf) → Bounded lim (read_lbuf size lim b)
unfolding read_lbuf
read_lbuf-Bounded size lim b =
    scan_line-Bounded (suc lim) size lim b b.cur 0 (omega arith) (omega arith) (omega arith)
