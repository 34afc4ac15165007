-- ===== src/Tail/Tests.antt =====
-- Runs of `showline` of src/imp/13-5.c.
use tlpiexer.Prelude.{
  true, ℕ, ◌≡◌, refl, [], ◌∷◌, length, drop, ltb, if◌then◌else◌, arith, ok, fault,
}
use tlpiexer.CText.{Bytes, c_str}
use tlpiexer.Tail.{Calls, showline, find_start, scan, byte_at, display}
use tlpiexer.Tail.Lines.{Starts, showline-lines}

-- `a`, `b`, each on a line
abbrev two_lines : Bytes
two_lines = 97 ∷ 10 ∷ 98 ∷ 10 ∷ []

abbrev no_failure : Calls
no_failure = record {
  opens = true;
  sizes = true;
  searches = λ n. true;
  seeks = true;
  reads = λ n. true;
  closes = true;
}

showline-lines_example :
    (p : ℕ) × Starts two_lines 1 p
    × (showline 5 no_failure two_lines 1 ≡ (
        if ltb (length (drop p two_lines)) 1024
        then ok (0, c_str 1024 (drop p two_lines))
        else fault))
showline-lines_example =
    showline-lines 5 no_failure two_lines 1 (omega arith) refl refl (λ n. refl) refl (λ n. refl)
      refl

last_line : showline 5 no_failure two_lines 1 ≡ ok (0, 98 ∷ 10 ∷ [])
unfolding showline find_start scan byte_at display c_str
last_line = refl

-- Without the last newline there is one line more.
one_line_more : showline 5 no_failure (97 ∷ 10 ∷ 98 ∷ []) 1 ≡ ok (0, 97 ∷ 10 ∷ 98 ∷ [])
unfolding showline find_start scan byte_at display c_str
one_line_more = refl
