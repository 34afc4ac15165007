-- ===== src/LineBuf/Across.antt =====
-- Lines that a refill of `read_lbuf` (src/lib/59-01.c) completes.
use tlpiexer.Prelude.{
  ℕ, suc, ◌+◌, ◌-◌, ◌*◌, ◌≡◌, ◌≤◌, ◌<◌, refl, sym, ap, ◌∙◌, true, false, some, [], ◌∷◌, ◌++◌, ◌==◌,
  ltb, length, length-append, length-drop, take, drop, take-append-drop, drop-all, append-nil,
  append_assoc, arith, ok, pos, length-take, subst,
}
use tlpiexer.CText.{Bytes, NoNewline}
use tlpiexer.LineBuf.{Source, Lbuf, read, store, refill, filled, scan_line, read_lbuf}
use tlpiexer.LineBuf.Scan.{scan_line-skip}
use tlpiexer.LineBuf.Next.{take-length, drop-length, NoNewline-append, Ready, take_line, found}

-- The buffer behind a refill: what was left in it, then the new bytes.
abbrev refilled : Lbuf → Bytes → Lbuf
refilled b new = record {
  src = record { unread = drop b.cur b.src.unread; limits = [] };
  efile = b.efile;
  buf = drop b.cur b.buf ++ new;
  cur = 0;
}

-- What is stored up to the end of the array.
store-end :
    (i : ℕ) (bytes buf : Bytes)
    → length buf ≡ i + length bytes
    → store i bytes buf ≡ take i buf ++ bytes
store-end i bytes buf e =
    rw (drop-all (i + length bytes) buf (omega arith), append-nil (take i buf ++ bytes))

pub read-free :
    (n : ℕ) (src : Source)
    → src.limits ≡ []
    → read n src ≡ (some (take n src.unread), record { unread = drop n src.unread; limits = [] })
unfolding read
read-free n src free = rw free

refill-filled :
    (size : ℕ) (b : Lbuf) (c : ℕ) (bytes : Bytes)
    → length b.buf ≡ size
    → b.cur ≤ size
    → b.src.limits ≡ []
    → size - b.cur ≤ b.cur
    → take b.cur b.src.unread ≡ c ∷ bytes
    → length (c ∷ bytes) ≡ b.cur
    → refill size b ≡ filled (refilled b (c ∷ bytes)) (size - b.cur)
unfolding refill
refill-filled size b c bytes full inside free room got exact =
    let apart : ltb b.cur (size - b.cur) ≡ false = ground arith in
    let asked : size - (size - b.cur) ≡ b.cur = omega arith in
    let left : length (drop b.cur b.buf) ≡ size - b.cur = omega (arith, length-drop b.cur b.buf) in
    let moved : Bytes = store 0 (drop b.cur b.buf) b.buf in
    let behind = drop (0 + length (drop b.cur b.buf)) b.buf in
    let long : length moved ≡ size = omega (
      arith,
      length-append (drop b.cur b.buf) behind,
      length-drop (0 + length (drop b.cur b.buf)) b.buf,
    ) in
    let front : take (size - b.cur) moved ≡ drop b.cur b.buf =
      rw (← left) (take-length (drop b.cur b.buf) behind) in
    let stored : store (size - b.cur) (c ∷ bytes) moved ≡ drop b.cur b.buf ++ c ∷ bytes =
      store-end (size - b.cur) (c ∷ bytes) moved (omega arith) ∙ ap (λ x. x ++ c ∷ bytes) front in
    let all = read-free (size - (size - b.cur)) b.src free in
    rw (apart, all, asked, got, all, asked, stored)

pub refill-new :
    (size : ℕ) (b : Lbuf) (new : Bytes)
    → length b.buf ≡ size
    → b.cur ≤ size
    → b.src.limits ≡ []
    → size - b.cur ≤ b.cur
    → 0 < b.cur
    → take b.cur b.src.unread ≡ new
    → length new ≡ b.cur
    → refill size b ≡ filled (refilled b new) (size - b.cur)
refill-new size b [] full inside free room some_room got exact = absurd (omega arith)
refill-new size b (c ∷ bytes) full inside free room some_room got exact =
    refill-filled size b c bytes full inside free room got exact

-- The round that refills.
scan_line-refill :
    (f size lim : ℕ) (b b' : Lbuf) (s l : ℕ)
    → b.efile ≡ false
    → refill size b ≡ filled b' s
    → (s == size) ≡ false
    → scan_line (suc f) size lim b size l ≡ scan_line (suc f) size lim b' s l
unfolding scan_line refill
scan_line-refill f size lim b b' s l open' re off =
    let same : (size == size) ≡ true = ground arith in rw (same, open', re, off)

-- What the refill of a buffer gives that holds the start of a line, of at most half of its size.
record Refilled (size : ℕ) (b : Lbuf) (s more t : Bytes) : Type 0 where
  done : refill size b ≡ filled (refilled b (s ++ 10 ∷ t)) (size - b.cur)
  full : length (drop b.cur b.buf ++ (s ++ 10 ∷ t)) ≡ size
  at : drop (size - b.cur) (drop b.cur b.buf ++ (s ++ 10 ∷ t)) ≡ s ++ 10 ∷ t
  rest : more ≡ t ++ drop b.cur b.src.unread

refill-Refilled :
    (size : ℕ) (b : Lbuf) (s more : Bytes)
    → length b.buf ≡ size
    → b.cur ≤ size
    → b.src.limits ≡ []
    → 2 * (size - b.cur + length s) ≤ size
    → 0 < size
    → b.src.unread ≡ s ++ 10 ∷ more
    → size ≤ length more
    → Refilled size b s more (take (b.cur - length s - 1) more)
refill-Refilled size b s more full inside free half some_room rest plenty =
    let left = drop b.cur b.buf in
    let l0 : length left ≡ size - b.cur = omega (arith, length-drop b.cur b.buf) in
    let k : ℕ = b.cur - length s - 1 in
    let (taken, dropped) = take_line s more b.cur (omega arith) in
    let got : take b.cur b.src.unread ≡ s ++ 10 ∷ take k more = rw rest taken in
    let long : length (s ++ 10 ∷ take k more) ≡ b.cur =
      omega (arith, length-append s (10 ∷ take k more), length-take k more) in
    record {
      done = refill-new size b _ full inside free (omega arith) (omega arith) got long;
      full = omega (arith, length-append left (s ++ 10 ∷ take k more));
      at = rw (← l0) (drop-length left (s ++ 10 ∷ take k more));
      rest = rw (rest, dropped) (sym (take-append-drop k more));
    }

-- A line of which the buffer holds only the start.
pub next_across :
    (size lim : ℕ) (b : Lbuf) (line s more : Bytes)
    → Ready size b (line ++ 10 ∷ more)
    → NoNewline line
    → length line ≤ lim
    → 2 * length line ≤ size
    → 0 < size
    → line ≡ drop b.cur b.buf ++ s
    → b.src.unread ≡ s ++ 10 ∷ more
    → size ≤ length more
    → (b' : Lbuf) × (read_lbuf size lim b ≡ ok (pos (length line), line, b')) × Ready size b' more
unfolding read_lbuf
next_across size lim b line s more r n fits half some_room split rest plenty =
    let left = drop b.cur b.buf in
    let t = take (b.cur - length s - 1) more in
    let (nl, ns) = NoNewline-append left s (subst NoNewline split n) in
    let sizes : length line ≡ length left + length s = rw split (length-append left s) in
    let l0 : length left ≡ size - b.cur = omega (arith, length-drop b.cur b.buf, r.full) in
    let inside = r.inside in
    let (skip, _) =
      scan_line-skip left (suc lim) size lim b b.cur 0 [] nl r.full (sym (append-nil left))
        (omega arith) (omega arith) in
    let re =
      refill-Refilled size b s more r.full inside r.free (omega arith) some_room rest plenty in
    let off : ((size - b.cur) == size) ≡ false = ground arith in
    let across =
      scan_line-refill (lim - length left) size lim b _ _ (length left) r.more re.done off in
    let (e, ready) =
      found s (suc (lim - length left)) size lim (refilled b (s ++ 10 ∷ t)) (size - b.cur)
        (length left) t more ns re.full r.more refl re.at (omega arith) (omega arith) re.rest in
    let e0 : b.cur + length left ≡ size = omega arith in
    let e1 : suc lim - length left ≡ suc (lim - length left) = omega arith in
    let e2 : 0 + length left ≡ length left = omega arith in
    let e3 : size - b.cur + length s - 0 ≡ length line = omega arith in
    let e4 : length left + length s ≡ length line = omega arith in
    let taken : take (size - b.cur + length s - 0) (left ++ (s ++ 10 ∷ t)) ≡ line =
      rw (e3, ← append_assoc left s (10 ∷ t), ← split) (take-length line (10 ∷ t)) in
    (
      record (refilled b (s ++ 10 ∷ t)) { cur = size - b.cur + length s + 1 },
      skip ∙ rw (e0, e1, e2) (across ∙ e ∙ rw (e4, taken)),
      ready,
    )
