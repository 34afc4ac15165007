-- ===== src/LineBuf/Scan.antt =====
-- The loop of `read_lbuf` (src/lib/59-01.c) over bytes that are in the buffer.
use tlpiexer.Prelude.{
  ℕ, zero, suc, ◌+◌, ◌-◌, ◌≡◌, ◌≤◌, ◌<◌, ◌∙◌, false, some, [], ◌∷◌, ◌++◌, ◌==◌, ltb, length, drop,
  get_elem?, arith, ok, drop-Shows, drop-lt,
}
use tlpiexer.CText.{Bytes, NoNewline}
use tlpiexer.LineBuf.{Lbuf, scan_line, finish}

-- One round at a byte that is no newline.
pub scan_line-step :
    (f size lim : ℕ) (b : Lbuf) (s l c : ℕ)
    → (s == size) ≡ false
    → get_elem? b.buf s ≡ some c
    → (c == 10) ≡ false
    → l + 1 ≤ lim
    → scan_line (suc f) size lim b s l ≡ scan_line f size lim b (s + 1) (l + 1)
unfolding scan_line
scan_line-step f size lim b s l c off elem other fits =
    let small : ltb lim (l + 1) ≡ false = ground arith in rw (off, elem, other, small)

pub scan_line-newline :
    (f size lim : ℕ) (b : Lbuf) (s l : ℕ)
    → (s == size) ≡ false
    → get_elem? b.buf s ≡ some 10
    → scan_line (suc f) size lim b s l ≡ ok (finish b s l)
unfolding scan_line
scan_line-newline f size lim b s l off elem = rw (off, elem)

-- Past bytes that are no newlines.
pub scan_line-skip :
    (s : Bytes) (f size lim : ℕ) (b : Lbuf) (seek l : ℕ) (more : Bytes)
    → NoNewline s
    → length b.buf ≡ size
    → drop seek b.buf ≡ s ++ more
    → l + length s ≤ lim
    → length s ≤ f
    → (scan_line f size lim b seek l
        ≡ scan_line (f - length s) size lim b (seek + length s) (l + length s))
      × (drop (seek + length s) b.buf ≡ more)
scan_line-skip [] f size lim b seek l more n full at fits fuel =
    let e0 : f - 0 ≡ f = omega arith in
    let e1 : seek + 0 ≡ seek = omega arith in
    let e2 : l + 0 ≡ l = omega arith in (rw (e0, e1, e2), rw e1 at)
scan_line-skip (c ∷ s) zero size lim b seek l more n full at fits fuel = absurd (omega arith)
scan_line-skip (c ∷ s) (suc f) size lim b seek l more (n, ns) full at fits fuel =
    let h = drop-Shows b.buf seek c (s ++ more) at in
    let lt = drop-lt b.buf seek c (s ++ more) at in
    let off : (seek == size) ≡ false = ground arith in
    let other : (c == 10) ≡ false = ground arith in
    let (e, r) =
      scan_line-skip s f size lim b (seek + 1) (l + 1) more ns full h.next (omega arith)
        (omega arith) in
    let e0 : suc f - suc (length s) ≡ f - length s = omega arith in
    let e1 : seek + suc (length s) ≡ seek + 1 + length s = omega arith in
    let e2 : l + suc (length s) ≡ l + 1 + length s = omega arith in
    (
      rw (e0, e1, e2) (scan_line-step f size lim b seek l c off h.elem other (omega arith) ∙ e),
      rw e1 r,
    )

-- A line whose newline is in the buffer.
pub scan_line-line :
    (s : Bytes) (f size lim : ℕ) (b : Lbuf) (seek l : ℕ) (more : Bytes)
    → NoNewline s
    → length b.buf ≡ size
    → drop seek b.buf ≡ s ++ 10 ∷ more
    → l + length s ≤ lim
    → length s < f
    → scan_line f size lim b seek l ≡ ok (finish b (seek + length s) (l + length s))
scan_line-line s f size lim b seek l more n full at fits fuel =
    let (e, r) = scan_line-skip s f size lim b seek l (10 ∷ more) n full at fits (omega arith) in
    let h = drop-Shows b.buf (seek + length s) 10 more r in
    let lt = drop-lt b.buf (seek + length s) 10 more r in
    let off : ((seek + length s) == size) ≡ false = ground arith in
    let e0 : f - length s ≡ suc (f - length s - 1) = omega arith in
    e ∙ rw e0 (scan_line-newline (f - length s - 1) size lim b _ _ off h.elem)
