-- ===== src/Copy/Sent.antt =====
-- The loop of `sendfile_x` (src/lib/61-03.c).
use tlpiexer.Prelude.{
  ℕ, zero, suc, ◌+◌, ◌-◌, ◌≡◌, ◌<◌, ◌≤◌, ◌⊎◌, inl, inr, refl, sym, ap, ◌∙◌, subst, true, false,
  Option, none, some, ◌++◌, ◌==◌, leb, min, length, take, arith, tests, append-nil, length-take,
  length-drop, take-length-take, take-prefix, take-full, Bool-cases, Returns, Returns-map,
}
use tlpiexer.CText.{Bytes}
use tlpiexer.Copy.{
  Calls, ReadAnswer, no_read, upto, WriteAnswer, no_write, whole, part, Io, unread, read, write,
}
use tlpiexer.Copy.Send.{to_rsize, transfer}
use tlpiexer.Copy.Moved.{Moved, Broken, Prefix, Moved-none, onward, Moved-onward, Prefix-onward}

-- The count of bytes that went over, or an error that some call explains.
abbrev pub Sent : Calls → ℕ → ℕ → Io → Option ℕ × Io → Type 0
Sent c count total io (r, io') =
    (let n = min (count - total) (length (unread io)) in (r ≡ some (total + n)) × Moved io n io')
    ⊎ ((r ≡ none) × Broken c × Prefix io io')

size_bounds :
    (count total : ℕ)
    → total < count
    → (0 < to_rsize count total) × (to_rsize count total ≤ count - total)
size_bounds count total more = elim (Bool-cases (leb 1024 (count - total))) [
  | inl big ↦ rw big (omega arith, omega tests)
  | inr small ↦ rw small (omega arith, omega arith)
]

-- A failed call, with a prefix written.
broke :
    (c : Calls) (count total : ℕ) (io io' : Io)
    → Broken c
    → Prefix io io'
    → Sent c count total io (none, io')
broke c count total io io' b p = inr (refl, b, p)

-- The rounds behind one that moved `buf`.
resume :
    (c : Calls) (count total : ℕ) (io : Io) (buf : Bytes)
    → take (length buf) (unread io) ≡ buf
    → length buf ≤ count - total
    → length buf ≤ length (unread io)
    → (out : Option ℕ × Io) → Sent c count (total + length buf) (onward io buf) out
    → Sent c count total io out
resume c count total io buf next small room (r, io') (inl (e, m)) =
    let left : length (unread (onward io buf)) ≡ length (unread io) - length buf =
      omega (arith, length-drop io.pos io.content, length-drop (io.pos + length buf) io.content) in
    let same : length buf + min (count - (total + length buf)) (length (unread (onward io buf)))
        ≡ min (count - total) (length (unread io)) =
      omega arith in
    inl (
      e ∙ ap some (omega arith),
      subst (λ n. Moved io n io') same (Moved-onward io buf next _ io' m),
    )
resume c count total io buf next small room (r, io') (inr (e, b, p)) =
    inr (e, b, Prefix-onward io buf next io' p)

-- One round, with the rounds behind it.
module _ (f : ℕ) (c : Calls) (count total : ℕ) (io : Io) (enough : length (unread io) < suc f)
    (ih : (t : ℕ) (io' : Io)
      → length (unread io') < f
      → Returns (Sent c count t io') (transfer f c count t io')) where
  abbrev piece : ℕ → Bytes
  piece k = take (min (to_rsize count total) (suc k)) (unread io)

  next : (k : ℕ) → take (length (piece k)) (unread io) ≡ piece k
  next k = take-length-take (min (to_rsize count total) (suc k)) (unread io)

  -- All of the piece has been written.
  rest :
      leb count total ≡ false
      → (k : ℕ) → (length (piece k) == 0) ≡ false
      → Returns
          (Sent c count total io)
          (transfer f c count (total + length (piece k)) (onward io (piece k)))
  rest more k some_there =
      let (pos_size, small) = size_bounds count total (ground arith) in
      let l = length-take (min (to_rsize count total) (suc k)) (unread io) in
      let one : 0 < length (piece k) = ground arith in
      let left : length (unread (onward io (piece k))) < f = omega (
        arith,
        length-drop io.pos io.content,
        length-drop (io.pos + length (piece k)) io.content,
      ) in
      Returns-map (Sent c count (total + length (piece k)) (onward io (piece k)))
        (Sent c count total io) _
        (resume c count total io (piece k) (next k) (omega arith) (omega arith))
        (ih (total + length (piece k)) (onward io (piece k)) left)

  write_part :
      leb count total ≡ false
      → (k : ℕ) → c.reads io.count ≡ upto k
      → (length (piece k) == 0) ≡ false
      → (wr : WriteAnswer) → c.writes io.count ≡ wr
      → Returns (Sent c count total io) (transfer (suc f) c count total io)
  unfolding transfer read write
  write_part more k e some_there no_write w =
      rw (more, e, some_there, w)
        (rw (e, w)
          (broke c count total io _ (io.count, inr (λ h. cc (w, h)))
            (0, sym (append-nil io.output))))
  write_part more k e some_there whole w =
      let self : (length (piece k) == length (piece k)) ≡ true = ground arith in
      rw (more, e, some_there, w) (rw (e, w, self) (rest more k some_there))
  write_part more k e some_there (part j) w =
      elim (Bool-cases (length (take (suc j) (piece k)) == length (piece k))) [
        | inl all ↦
            rw (more, e, some_there, w)
              (rw (e, w, all)
                (rw (take-full (suc j) (piece k) (ground arith)) (rest more k some_there)))
        | inr less ↦
            let (m, p) = take-prefix (suc j) (min (to_rsize count total) (suc k)) (unread io) in
            rw (more, e, some_there, w)
              (rw (e, w, less)
                (broke c count total io _ (io.count, inr (λ h. cc (w, h)))
                  (m, ap (λ b. io.output ++ b) p)))
      ]

  go :
      leb count total ≡ false
      → (rd : ReadAnswer) → c.reads io.count ≡ rd
      → Returns (Sent c count total io) (transfer (suc f) c count total io)
  unfolding transfer read write
  go more no_read e =
      rw (more, e)
        (rw e (broke c count total io io (io.count, inl e) (0, sym (append-nil io.output))))
  go more (upto k) e = elim (Bool-cases (length (piece k) == 0)) [
    | inl end ↦
        let (pos_size, small) = size_bounds count total (ground arith) in
        let l = length-take (min (to_rsize count total) (suc k)) (unread io) in
        let none_there : length (piece k) ≡ 0 = ground arith in
        let zero_left : min (count - total) (length (unread io)) ≡ 0 = omega arith in
        rw (more, e, end)
          (rw e (
            inl (
              ap some (omega arith),
              Moved-none io _ (io.pos + length (piece k)) (suc io.count) zero_left (omega arith),
            )))
    | inr some_there ↦ write_part more k e some_there (c.writes io.count) refl
  ]

  round : Returns (Sent c count total io) (transfer (suc f) c count total io)
  unfolding transfer
  round = elim (Bool-cases (leb count total)) [
    | inl full ↦ rw full (
        inl (
          ap some (omega tests),
          Moved-none io (min (count - total) (length (unread io))) io.pos io.count (omega tests)
              refl,
        ))
    | inr more ↦ go more (c.reads io.count) refl
  ]

-- The loop returns with fuel for one round more than there are bytes left.
pub transfer-Sent :
    (f : ℕ) (c : Calls) (count total : ℕ) (io : Io)
    → length (unread io) < f
    → Returns (Sent c count total io) (transfer f c count total io)
transfer-Sent zero c count total io enough = absurd (omega arith)
transfer-Sent (suc f) c count total io enough =
    round f c count total io enough (λ t io'. transfer-Sent f c count t io')
