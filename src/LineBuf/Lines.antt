-- ===== src/LineBuf/Lines.antt =====
-- Files read line by line by `init_lbuf` and `read_lbuf` (src/lib/59-01.c).
use tlpiexer.Prelude.{
  ℕ, zero, suc, ◌+◌, ◌*◌, ◌≡◌, ◌≤◌, ◌<◌, refl, false, List, [], ◌∷◌, ◌++◌, ltb, length,
  length-append, length-take, take, drop, take-append-drop, drop-all, append-nil, append_assoc,
  arith, Run, ok, ◌>>=◌, inl, inr, pos, fn_ok, subst,
}
use tlpiexer.CText.{Bytes, text, NoNewline}
use tlpiexer.LineBuf.{Source, Lbuf, read_lbuf, init_lbuf}
use tlpiexer.LineBuf.Next.{append-split, Ready, next_within}
use tlpiexer.LineBuf.Across.{read-free, next_across}

-- A line without a newline that `line` has room for, of at most half the buffer's size.
abbrev pub Fits : ℕ → ℕ → Bytes → Type 0
Fits size lim line = NoNewline line × (length line ≤ lim) × (2 * length line ≤ size)

-- On a full buffer, behind whose next line the descriptor has at least a buffer's size more, `read_lbuf`
-- gives that line, if it has room for it and it is at most half as long as the buffer, and its length;
-- the buffer and the descriptor then hold what follows the line's newline.
pub read_lbuf-next :
    (size lim : ℕ) (b : Lbuf) (line more : Bytes)
    → Ready size b (line ++ 10 ∷ more)
    → Fits size lim line
    → 0 < size
    → size ≤ length more
    → (b' : Lbuf) × (read_lbuf size lim b ≡ ok (pos (length line), line, b')) × Ready size b' more
read_lbuf-next size lim b line more r (n, fits, half) some_room plenty =
    elim (append-split (drop b.cur b.buf) b.src.unread line more 10 r.pending) [
      | inl (t, at, rest) ↦ next_within size lim b line more t r n fits at rest
      | inr (s, split, rest) ↦
          next_across size lim b line s more r n fits half some_room split rest plenty
    ]

-- As many calls of `read_lbuf` one after the other, with what each copies to `line`.
abbrev pub read_lines : ℕ → ℕ → ℕ → Lbuf → Run (List Bytes)
read_lines zero size lim b = ok []
read_lines (suc n) size lim b = read_lbuf size lim b >>= λ (_, line, b').
    (read_lines n size lim b' >>= λ lines. ok (line ∷ lines))

abbrev pub AllFit : ℕ → ℕ → List Bytes → Type 0
AllFit size lim [] = Unit {0}
AllFit size lim (line ∷ lines) = Fits size lim line × AllFit size lim lines

read_lines-Ready :
    (size lim : ℕ) (lines : List Bytes) (behind : Bytes) (b : Lbuf)
    → Ready size b (text lines ++ behind)
    → AllFit size lim lines
    → 0 < size
    → size ≤ length behind
    → read_lines (length lines) size lim b ≡ ok lines
unfolding text
read_lines-Ready size lim [] behind b r fit some_room plenty = refl
read_lines-Ready size lim (line ∷ lines) behind b r (fit, fits) some_room plenty =
    let e : (line ++ 10 ∷ text lines) ++ behind ≡ line ++ 10 ∷ (text lines ++ behind) =
      append_assoc line (10 ∷ text lines) behind in
    let (b', got, r') =
      read_lbuf-next size lim b line (text lines ++ behind) (subst (Ready size b) e r) fit some_room
        (omega (arith, length-append (text lines) behind)) in
    rw (got, read_lines-Ready size lim lines behind b' r' fits some_room plenty)

-- `init_lbuf` where the descriptor has at least a buffer's size of bytes.
init_lbuf-filled :
    (size : ℕ) (src : Source) (b : Lbuf)
    → src.limits ≡ []
    → size ≤ length src.unread
    → length b.buf ≡ size
    → init_lbuf size src b ≡ (
      fn_ok,
      record {
        src = record { unread = drop size src.unread; limits = [] };
        efile = false;
        buf = take size src.unread;
        cur = 0;
      },
    )
unfolding init_lbuf
init_lbuf-filled size src b free long full =
    let got = take size src.unread in
    let size' : length got ≡ size = omega (arith, length-take size src.unread) in
    let same : ltb (length got) size ≡ false = ground arith in
    let none_left : drop (0 + length got) b.buf ≡ [] = drop-all _ b.buf (omega arith) in
    let all = read-free size src free in rw (init_lbuf, all, same, none_left, append-nil got, all)

init_lbuf-Ready :
    (size : ℕ) (src : Source) (b : Lbuf)
    → src.limits ≡ []
    → size ≤ length src.unread
    → length b.buf ≡ size
    → Ready size (init_lbuf size src b).1 src.unread
init_lbuf-Ready size src b free long full = rw (init_lbuf-filled size src b free long full) record {
  full = omega (arith, length-take size src.unread);
  inside = omega arith;
  more = refl;
  free = refl;
  pending = take-append-drop size src.unread;
}

-- Lines written one after the other, each without a newline, of at most `lim` bytes and at most half
-- the buffer's size, come back line by line, if at least a buffer's size of bytes follows them and each
-- `read` gives all that it is asked for.
pub read_lines-text :
    (size lim : ℕ) (lines : List Bytes) (behind : Bytes) (b : Lbuf)
    → AllFit size lim lines
    → 0 < size
    → size ≤ length behind
    → length b.buf ≡ size
    → read_lines
        (length lines)
        size
        lim
        (init_lbuf size (record { unread = text lines ++ behind; limits = [] }) b).1
      ≡ ok lines
read_lines-text size lim lines behind b fit some_room plenty full =
    let src : Source = record { unread = text lines ++ behind; limits = [] } in
    let r =
      init_lbuf-Ready size src b refl (omega (arith, length-append (text lines) behind)) full in
    read_lines-Ready size lim lines behind _ r fit some_room plenty
