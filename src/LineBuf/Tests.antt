-- ===== src/LineBuf/Tests.antt =====
-- Runs of `init_lbuf` and `read_lbuf` (src/lib/59-01.c) with a buffer of four bytes.
use tlpiexer.Prelude.{
  ◌≡◌, refl, true, false, none, [], ◌∷◌, ◌++◌, length, arith, ok, fault, pos, fn_er,
}
use tlpiexer.CText.{Bytes, text}
use tlpiexer.LineBuf.{Lbuf, read, refill, scan_line, read_lbuf, init_lbuf}
use tlpiexer.LineBuf.Next.{Ready}
use tlpiexer.LineBuf.Lines.{Fits, read_lines, read_lbuf-next, read_lines-text}
use tlpiexer.LineBuf.Bounds.{Bounded, read_lbuf-Bounded}
use tlpiexer.LineBuf.Ends.{read_lbuf-stale}

-- "ab", a line longer than what the buffer holds of it below
abbrev ab : Bytes
ab = 97 ∷ 98 ∷ []

ab-Fits : Fits 4 8 ab
ab-Fits = ((omega arith, (omega arith, tt)), omega arith, omega arith)

abbrev behind : Bytes
behind = 99 ∷ 100 ∷ 101 ∷ 102 ∷ []

-- The buffer ends within the line.
abbrev half_read : Lbuf
half_read = record {
  src = record { unread = 98 ∷ 10 ∷ behind; limits = [] };
  efile = false;
  buf = 0 ∷ 0 ∷ 10 ∷ 97 ∷ [];
  cur = 3;
}

read_lbuf-next_example :
    (b' : Lbuf) × (read_lbuf 4 8 half_read ≡ ok (pos (length ab), ab, b')) × Ready 4 b' behind
read_lbuf-next_example =
    read_lbuf-next 4 8 half_read ab behind
      (record { full = refl; inside = omega arith; more = refl; free = refl; pending = refl })
      ab-Fits (omega arith) (omega arith)

abbrev stale : Lbuf
stale = record {
  src = record { unread = []; limits = [] };
  efile = false;
  buf = 0 ∷ 0 ∷ 120 ∷ 10 ∷ [];
  cur = 0;
}

read_lines-text_example :
    read_lines 2 4 8
      (init_lbuf 4 (record { unread = text (ab ∷ ab ∷ []) ++ behind; limits = [] }) stale).1
    ≡ ok (ab ∷ ab ∷ [])
read_lines-text_example =
    read_lines-text 4 8 (ab ∷ ab ∷ []) behind stale (ab-Fits, (ab-Fits, tt)) (omega arith)
      (omega arith) refl

read_lbuf-Bounded_example : Bounded 1 (read_lbuf 4 1 half_read)
read_lbuf-Bounded_example = read_lbuf-Bounded 4 1 half_read

-- "ab" is read as "abx".
read_lbuf-stale_example :
    (b' : Lbuf) × (read_lbuf 4 8 (init_lbuf 4 (record { unread = ab; limits = [] }) stale).1
      ≡ ok (pos 3, ab ++ 120 ∷ [], b'))
read_lbuf-stale_example =
    read_lbuf-stale 4 8 ab (120 ∷ []) [] stale ab-Fits.0 (omega arith, tt) refl refl (omega arith)

abbrev last_bytes : Lbuf
last_bytes = record half_read { efile = true }

-- More than half a buffer before the refill: `memcpy` between regions that overlap.
overlapping : read_lbuf 4 8 (record half_read { buf = 10 ∷ 97 ∷ 97 ∷ 97 ∷ []; cur = 1 }) ≡ fault
unfolding read_lbuf scan_line refill read
overlapping = refl

-- A `read` that fails.
read_fails :
    (b' : Lbuf) × (read_lbuf 4 8
        (record half_read { src = record { unread = ab; limits = none ∷ [] } })
      ≡ ok (fn_er, [], b'))
unfolding read_lbuf scan_line refill read
read_fails = (_, refl)

-- A line of two bytes for which there is room for one.
too_long : (b' : Lbuf) × (read_lbuf 4 1 half_read ≡ ok (fn_er, [], b'))
unfolding read_lbuf scan_line refill read
too_long = (_, refl)
