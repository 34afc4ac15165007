-- ===== src/Tail/Lines.antt =====
-- Where `showline` of src/imp/13-5.c begins, and what it prints.
use tlpiexer.Prelude.{
  Bool, true, ℕ, zero, suc, ◌+◌, ◌-◌, ◌≡◌, ◌≤◌, ◌<◌, ◌⊎◌, inl, inr, refl, sym, ap, ◌∙◌, subst, true,
  false, Option, none, some, [], ◌∷◌, ◌++◌, ◌==◌, ltb, if◌then◌else◌, length, take, drop,
  length-take, length-drop, take-all, drop-all, append-nil, arith, tests, Bool-cases, ok, fault,
}
use tlpiexer.CText.{Bytes, c_str}
use tlpiexer.Tail.{buf_size, byte_at, scan, block_start, find_start, display, showline, Calls}
use tlpiexer.Tail.Count.{newlines, Scanned, scan-Scanned}

-- The position that leaves `numline` newlines: the start of a file that has no more newlines, or the
-- place behind a newline from which on there are exactly `numline` of them.
abbrev pub Starts : Bytes → ℕ → ℕ → Type 0
Starts file numline p =
    ((p ≡ 0) × (newlines file ≤ numline))
    ⊎ ((q : ℕ) × (p ≡ suc q) × (byte_at file q ≡ 10) × (newlines (drop p file) ≡ numline))

-- The block that a round looks at.
module _ (file : Bytes) (preoff : ℕ) (inside : preoff ≤ length file) where
  abbrev size : ℕ
  size = preoff - block_start preoff

  size-length : length (take size (drop (block_start preoff) file)) ≡ size
  size-length = elim (Bool-cases (ltb buf_size preoff)) [
    | inl big ↦ ground (
      arith,
      length-take size (drop (block_start preoff) file),
      length-drop (block_start preoff) file,
    )
    | inr small ↦ ground (
      arith,
      length-take size (drop (block_start preoff) file),
      length-drop (block_start preoff) file,
    )
  ]

  block_start-bounds :
      (block_start preoff ≤ preoff) × ((block_start preoff ≡ 0) ⊎ (block_start preoff < preoff))
  block_start-bounds = elim (Bool-cases (ltb buf_size preoff)) [
    | inl big ↦ rw big (omega arith, inr (omega tests))
    | inr small ↦ rw small (omega arith, inl refl)
  ]

module _ (calls : ℕ → Bool) (fine : (n : ℕ) → calls n ≡ true) where
  -- What `find_start` is to give.
  abbrev Found : ℕ → Bytes → ℕ → ℕ → ℕ → Type 0
  Found f file preoff numlf numline =
      (p : ℕ) × (find_start f calls file preoff numlf numline ≡ ok (some p)) × Starts file numline p

  -- One round, by what the inner loop says of its block.
  round :
      (f : ℕ) (file : Bytes) (preoff numlf numline : ℕ) (out : ℕ × Option ℕ)
      → let o = block_start preoff in
        let buf = take (preoff - o) (drop o file) in
        scan (length buf) buf numlf numline ≡ out
        → Scanned file o (preoff - o) numline out
        → ((o ≡ 0) ⊎ (o < preoff))
        → ((lf : ℕ)
            → o < preoff
            → lf ≡ newlines (drop o file)
            → lf ≤ numline
            → Found f file o lf numline)
        → Found (suc f) file preoff numlf numline
  unfolding find_start
  round f file preoff numlf numline (lf, some j) e (small, newline, behind) less ih =
      let o = block_start preoff in
      let next : suc (o + j) ≡ o + (j + 1) = omega arith in
      (
        o + (j + 1),
        rw (find_start, fine preoff, e),
        inr (o + j, sym next, newline, subst (λ p. newlines (drop p file) ≡ numline) next behind),
      )
  round f file preoff numlf numline (lf, none) e (counted, few) less ih =
      elim (Bool-cases (block_start preoff == 0)) [
        | inl start ↦
            let at_start : block_start preoff ≡ 0 = ground arith in
            (
              0,
              rw (find_start, fine preoff, e, start),
              inl (refl, subst (λ o. newlines (drop o file) ≤ numline) at_start (omega arith)),
            )
        | inr later ↦
            let moved : block_start preoff < preoff = ground arith in
            let (p, found, starts) = ih lf moved counted few in
            (p, rw (find_start, fine preoff, e, later) (rw e found), starts)
      ]

  find_start-Starts :
      (f : ℕ) (file : Bytes) (preoff numlf numline : ℕ)
      → preoff < f
      → preoff ≤ length file
      → numlf ≡ newlines (drop preoff file)
      → numlf ≤ numline
      → (p : ℕ) × (find_start f calls file preoff numlf numline ≡ ok (some p))
        × Starts file numline p
  unfolding find_start
  find_start-Starts zero file preoff numlf numline enough inside counted few = absurd (omega arith)
  find_start-Starts (suc f) file preoff numlf numline enough inside counted few =
      let o = block_start preoff in
      let k = preoff - o in
      let (below, less) = block_start-bounds file preoff inside in
      let e : o + k ≡ preoff = omega arith in
      let scanned =
        scan-Scanned file o k numline (omega arith) k numlf (omega arith)
          (counted ∙ ap (λ p. newlines (drop p file)) (sym e)) few in
      round f file preoff numlf numline _
        (ap (λ n. scan n (take k (drop o file)) numlf numline) (size-length file preoff inside))
        scanned less
        (λ lf moved c w. find_start-Starts f file o lf numline (omega arith) (omega arith) c w)

not_below : (a b : ℕ) → ltb a b ≡ false → b ≤ a
not_below a b h = ground arith

module _ (reads : ℕ → Bool) (fine : (n : ℕ) → reads n ≡ true) where
  display-end : (f : ℕ) (shown : Bytes) → 0 < f → display f reads [] shown ≡ ok shown
  unfolding display
  display-end zero shown h = absurd (omega arith)
  display-end (suc f) shown h = rw (display, fine 0)

  -- A file of less than a block is printed as a string, in one call of `printf`.
  display-once :
      (f : ℕ) (file shown : Bytes)
      → length file < f
      → display f reads file shown
        ≡ (if ltb (length file) buf_size then ok (shown ++ c_str buf_size file) else fault)
  unfolding display
  display-once zero file shown enough = absurd (omega arith)
  display-once (suc f) [] shown enough =
      rw (display, fine 0) (unfold c_str in ap ok (sym (append-nil shown)))
  display-once (suc f) (c ∷ file) shown enough =
      elim (Bool-cases (ltb (length (c ∷ file)) buf_size)) [
        | inl small ↦
            let whole = take-all buf_size (c ∷ file) (omega tests) in
            let gone = drop-all buf_size (c ∷ file) (omega tests) in
            let len = ap length whole in
            let some_there : (length (take buf_size (c ∷ file)) == 0) ≡ false = ground arith in
            let short : ltb (length (take buf_size (c ∷ file))) buf_size ≡ true = ground arith in
            rw (display, fine (length (c ∷ file)), some_there, short, gone, small)
              (rw whole (display-end f (shown ++ c_str buf_size (c ∷ file)) (omega arith)))
        | inr big ↦
            let l = length-take buf_size (c ∷ file) in
            let room = not_below (length (c ∷ file)) buf_size big in
            let full : length (take buf_size (c ∷ file)) ≡ buf_size = omega arith in
            rw (display, fine (length (c ∷ file)), full, big)
      ]

-- Where no call fails, and with fuel for more than the bytes of the file, `showline` finds the
-- position behind which there are as many newlines as lines are asked for, or the start of a file
-- of fewer: that of the last lines where a newline ends the file, and of one line more where none
-- does. From there on it prints the text up to its first NUL, and exits
-- with success, if that is less than a block of 1024 bytes; otherwise it writes a NUL behind its
-- buffer.
pub showline-lines :
    (fuel : ℕ) (c : Calls) (file : Bytes) (numline : ℕ)
    → length file < fuel
    → c.opens ≡ true
    → c.sizes ≡ true
    → ((n : ℕ) → c.searches n ≡ true)
    → c.seeks ≡ true
    → ((n : ℕ) → c.reads n ≡ true)
    → c.closes ≡ true
    → (p : ℕ) × Starts file numline p
      × (showline fuel c file numline
          ≡ (if ltb (length (drop p file)) 1024 then ok (0, c_str 1024 (drop p file)) else fault))
unfolding showline newlines
showline-lines fuel c file numline enough opens sizes searches seeks reads closes =
    let none_behind : 0 ≡ newlines (drop (length file) file) =
      ap newlines (sym (drop-all (length file) file (omega arith))) in
    let (p, found, starts) =
      find_start-Starts c.searches searches fuel file (length file) 0 numline enough (omega arith)
        none_behind (omega arith) in
    let shown =
      display-once c.reads reads fuel (drop p file) [] (omega (arith, length-drop p file)) in
    (
      p,
      starts,
      elim (Bool-cases (ltb (length (drop p file)) 1024)) [
        | inl small ↦ rw (showline, opens, sizes, found, seeks, shown, small, closes)
        | inr big ↦ rw (showline, opens, sizes, found, seeks, shown, big)
      ],
    )
