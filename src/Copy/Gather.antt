-- ===== src/Copy/Gather.antt =====
-- What `readv` and `writev` of src/imp/05-07.c move.
use tlpiexer.Prelude.{
  ℕ, suc, ◌+◌, ◌≡◌, refl, sym, ap, ◌∙◌, Option, none, some, List, [], ◌∷◌, ◌++◌, min, length, take,
  drop, arith, append-nil, append_assoc, length-append, take-add, drop-add, take-length-take,
}
use tlpiexer.CText.{Bytes}
use tlpiexer.Copy.{Calls, ReadAnswer, no_read, upto, WriteAnswer, whole, Io, unread, read, write}
use tlpiexer.Copy.Vector.{readv, writev}

unfoldable pub concat : List Bytes → Bytes
concat [] = []
concat (b ∷ bufs) = b ++ concat bufs

-- Where every `write` takes all of its element, `writev` writes the elements one behind the other, and
-- its result is their count.
pub writev-concat :
    (w : ℕ → WriteAnswer) (iov : List Bytes) (i twsize : ℕ) (io : Io)
    → ((i : ℕ) → w i ≡ whole)
    → writev w iov i twsize io
      ≡ (some (twsize + length (concat iov)), record io { output = io.output ++ concat iov })
unfolding writev concat write
writev-concat w [] i twsize io all =
    let e : twsize ≡ twsize + 0 = omega arith in
    ap (λ n. (some n, io)) e
    ∙ ap (λ o. (some (twsize + 0), record io { output = o })) (sym (append-nil io.output))
writev-concat w (b ∷ iov) i twsize io all =
    rw (writev, all i)
      (rw (all i) (
        writev-concat w iov (i + 1) (twsize + length b) (record io { output = io.output ++ b }) all
        ∙ ap (λ (n : ℕ). (some n, record io { output = (io.output ++ b) ++ concat iov }))
            (omega (arith, length-append b (concat iov)))
        ∙ ap (λ o. (some (twsize + length (b ++ concat iov)), record io { output = o }))
            (append_assoc io.output b (concat iov))))

abbrev pub Filled : Calls → ℕ → Io → Option (ℕ × List Bytes) × Io → Type 0
Filled c trsize io (none, io') = (i : ℕ) × (c.reads i ≡ no_read)
Filled c trsize io (some (n, bufs), io') =
    (n ≡ trsize + length (concat bufs))
    × (concat bufs ≡ take (length (concat bufs)) (unread io))
    × (io'.pos ≡ io.pos + length (concat bufs))

-- The elements behind one that was filled with `buf`.
Filled-cons :
    (c : Calls) (trsize : ℕ) (io : Io) (buf : Bytes) (count : ℕ) (out : Option (ℕ × List Bytes))
    (io' : Io)
    → take (length buf) (unread io) ≡ buf
    → Filled c
        (trsize + length buf)
        (record io { pos = io.pos + length buf; count = count })
        (out, io')
    → Filled c trsize io (elim out [ none ↦ none | some (n, bufs) ↦ some (n, buf ∷ bufs) ], io')
unfolding concat
Filled-cons c trsize io buf count none io' next f = f
Filled-cons c trsize io buf count (some (n, bufs)) io' next (size, bytes, moved) =
    let total = length-append buf (concat bufs) in
    (
      omega arith,
      ap (λ b. buf ++ b)
            (bytes ∙ ap (take (length (concat bufs))) (drop-add io.pos (length buf) io.content))
          ∙ ap (λ b. b ++ take (length (concat bufs)) (drop (length buf) (unread io))) (sym next)
          ∙ sym (take-add (length buf) (length (concat bufs)) (unread io))
          ∙ ap (λ k. take k (unread io)) (sym total),
      omega arith,
    )

readv_step :
    (c : Calls) (len : ℕ) (iov : List ℕ) (trsize : ℕ) (io : Io) (rd : ReadAnswer)
    → c.reads io.count ≡ rd
    → ((t : ℕ) (io' : Io) → Filled c t io' (readv c iov t io'))
    → Filled c trsize io (readv c (len ∷ iov) trsize io)
unfolding readv read
readv_step c len iov trsize io no_read e ih = rw (readv, read, e) (io.count, e)
readv_step c len iov trsize io (upto k) e ih =
    let buf = take (min len (suc k)) (unread io) in
    let io1 = record io { pos = io.pos + length buf; count = suc io.count } in
    let out = readv c iov (trsize + length buf) io1 in
    rw (readv, read, e)
      (rw e (
        Filled-cons c trsize io buf (suc io.count) out.0 out.1
          (take-length-take (min len (suc k)) (unread io)) (ih (trsize + length buf) io1)))

-- The elements are filled one behind the other, whatever each `read` gives: the bytes in them are those
-- of the file behind its position, in order, and the result is their count; -1 comes from a failed `read`.
pub readv-Filled :
    (c : Calls) (iov : List ℕ) (trsize : ℕ) (io : Io) → Filled c trsize io (readv c iov trsize io)
unfolding readv concat
readv-Filled c [] trsize io = (omega arith, refl, omega arith)
readv-Filled c (len ∷ iov) trsize io =
    readv_step c len iov trsize io (c.reads io.count) refl (λ t io'. readv-Filled c iov t io')
