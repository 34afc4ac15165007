-- ===== src/LineBuf/Ends.antt =====
-- Lines of `read_lbuf` (src/lib/59-01.c) at the end of a file.
use tlpiexer.Prelude.{
  ℕ, zero, suc, ◌+◌, ◌-◌, ◌≡◌, ◌≤◌, refl, sym, ap, ◌∙◌, true, false, none, List, [], ◌∷◌, ◌++◌,
  ◌==◌, length, length-append, length-drop, take, drop, take-all, append-nil, append_assoc, arith,
  ok, fault, pos, get_elem?,
}
use tlpiexer.CText.{Bytes, NoNewline}
use tlpiexer.LineBuf.{Source, Lbuf, finish, scan_line, read_lbuf, init_lbuf}
use tlpiexer.LineBuf.Scan.{scan_line-skip, scan_line-line}
use tlpiexer.LineBuf.Next.{take-length}
use tlpiexer.LineBuf.Across.{read-free}

get_elem?-past {ℓ} : {A : Type ℓ} (xs : List A) (k : ℕ) → length xs ≤ k → get_elem? xs k ≡ none
get_elem?-past [] k h = refl
get_elem?-past (x ∷ xs) zero h = absurd (omega arith)
get_elem?-past (x ∷ xs) (suc k) h = get_elem?-past xs k (omega arith)

append-NoNewline : (a b : Bytes) → NoNewline a → NoNewline b → NoNewline (a ++ b)
append-NoNewline [] b na nb = nb
append-NoNewline (c ∷ a) b (n, na) nb = (n, append-NoNewline a b na nb)

-- The loop at the end of the file.
scan_line-end :
    (f size lim : ℕ) (b : Lbuf) (l : ℕ)
    → b.efile ≡ true
    → scan_line (suc f) size lim b size l ≡ ok (finish b size l)
unfolding scan_line
scan_line-end f size lim b l done =
    let same : (size == size) ≡ true = ground arith in simp (same, done)

scan_line-outside :
    (f size lim : ℕ) (b : Lbuf) (l : ℕ)
    → length b.buf ≡ size
    → scan_line (suc f) size lim b (size + 1) l ≡ fault
unfolding scan_line
scan_line-outside f size lim b l full =
    let off : ((size + 1) == size) ≡ false = ground arith in
    simp (off, get_elem?-past b.buf (size + 1) (omega arith))

-- A line at the front of the buffer.
front_line :
    (size lim : ℕ) (b : Lbuf) (line t : Bytes) {n : ℕ}
    → NoNewline line
    → b.buf ≡ line ++ 10 ∷ t
    → b.cur ≡ 0
    → length b.buf ≡ size
    → length line ≡ n
    → n ≤ lim
    → (b' : Lbuf) × (read_lbuf size lim b ≡ ok (pos n, line, b'))
unfolding read_lbuf
front_line size lim b line t {n} clean at start full long room =
    let at' : drop b.cur b.buf ≡ line ++ 10 ∷ t = rw (start, at) in
    let e =
      scan_line-line line (suc lim) size lim b b.cur 0 t clean full at' (omega arith)
        (omega arith) in
    let e1 : b.cur + length line - b.cur ≡ length line = omega arith in
    let e2 : 0 + length line ≡ n = omega arith in
    let taken : take (b.cur + length line - b.cur) (drop b.cur b.buf) ≡ line =
      rw (e1, at') (take-length line (10 ∷ t)) in
    (record b { cur = b.cur + length line + 1 }, e ∙ rw (e2, taken))

-- On a file without a newline that is shorter than the buffer, the first call of `read_lbuf` behind
-- `init_lbuf` does not stop at the end of the file: its line goes on with the bytes that the buffer held
-- before, up to a newline among them, if it has room for them.
pub read_lbuf-stale :
    (size lim : ℕ) (file old t : Bytes) (b : Lbuf)
    → NoNewline file
    → NoNewline old
    → length b.buf ≡ size
    → drop (length file) b.buf ≡ old ++ 10 ∷ t
    → length file + length old ≤ lim
    → (b' : Lbuf) × (read_lbuf size lim (init_lbuf size (record { unread = file; limits = [] }) b).1
        ≡ ok (pos (length file + length old), file ++ old, b'))
unfolding init_lbuf read_lbuf
read_lbuf-stale size lim file old t b nf clean full at room =
    let src : Source = record { unread = file; limits = [] } in
    let short : length file + suc (length old + length t) ≡ size =
      omega (arith, ap length at, length-append old (10 ∷ t), length-drop (length file) b.buf) in
    let got : take size file ≡ file = take-all size file (omega arith) in
    let e0 : 0 + length file ≡ length file = omega arith in
    let start = init_lbuf size src b in
    let buf : start.1.buf ≡ (file ++ old) ++ 10 ∷ t =
      rw (init_lbuf, read-free size src refl, got, e0, at) (sym (append_assoc file old (10 ∷ t))) in
    let cur : start.1.cur ≡ 0 = rw (init_lbuf, read-free size src refl) in
    front_line size lim start.1 (file ++ old) t (append-NoNewline file old nf clean) buf cur
      (omega (arith, ap length buf, length-append (file ++ old) (10 ∷ t), length-append file old))
      (length-append file old) room

-- At the end of a file of which the rest has no newline and fills the buffer, `read_lbuf` gives that
-- rest, and `cur` lies one behind the buffer: the next call reads outside of it.
pub read_lbuf-past_end :
    (size lim : ℕ) (b : Lbuf)
    → length b.buf ≡ size
    → b.cur ≤ size
    → b.efile ≡ true
    → NoNewline (drop b.cur b.buf)
    → size - b.cur ≤ lim
    → (b' : Lbuf) × (read_lbuf size lim b ≡ ok (pos (size - b.cur), drop b.cur b.buf, b'))
      × (read_lbuf size lim b' ≡ fault)
unfolding read_lbuf
read_lbuf-past_end size lim b full inside done n room =
    let left = drop b.cur b.buf in
    let l0 : length left ≡ size - b.cur = omega (arith, length-drop b.cur b.buf) in
    let (skip, _) =
      scan_line-skip left (suc lim) size lim b b.cur 0 [] n full (sym (append-nil left))
        (omega arith) (omega arith) in
    let e0 : b.cur + length left ≡ size = omega arith in
    let e1 : suc lim - length left ≡ suc (lim - length left) = omega arith in
    let e2 : 0 + length left ≡ size - b.cur = omega arith in
    (
      record b { cur = size + 1 },
      skip
          ∙ rw (e0, e1, e2)
              (scan_line-end (lim - length left) size lim b (size - b.cur) done
                ∙ rw (take-all (size - b.cur) left (omega arith))),
      scan_line-outside lim size lim (record b { cur = size + 1 }) 0 full,
    )
