-- ===== src/Copy/Vector.antt =====
-- `readv` and `writev` of src/imp/05-07.c.
use tlpiexer.Prelude.{ℕ, ◌+◌, Option, none, some, List, [], ◌∷◌, length}
use tlpiexer.CText.{Bytes}
use tlpiexer.Copy.{Calls, WriteAnswer, Io, read, write}

-- The loop of `readv` from one element on, over the lengths of the elements: `trsize` behind it, and what
-- was put into each element.
unfoldable pub readv : Calls → List ℕ → ℕ → Io → Option (ℕ × List Bytes) × Io
readv c [] trsize io = (some (trsize, []), io)
readv c (iov_len ∷ iov) trsize io =
    let (rsize, io1) = read (c.reads io.count) iov_len io in
    elim rsize [
      | none ↦ (none, io1)
      | some buf ↦
          let (out, io2) = readv c iov (trsize + length buf) io1 in
          (elim out [ none ↦ none | some (n, bufs) ↦ some (n, buf ∷ bufs) ], io2)
    ]

-- The loop of `writev` from one element on; the number of calls counts for `write` too.
unfoldable pub writev : (ℕ → WriteAnswer) → List Bytes → ℕ → ℕ → Io → Option ℕ × Io
writev w [] i twsize io = (some twsize, io)
writev w (buf ∷ iov) i twsize io =
    let (wsize, io1) = write (w i) buf io in
    elim wsize [ none ↦ (none, io1) | some n ↦ writev w iov (i + 1) (twsize + n) io1 ]
