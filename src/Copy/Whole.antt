-- ===== src/Copy/Whole.antt =====
-- `cp` of src/imp/04-02.c, from its source to the copy.
use tlpiexer.Prelude.{
  ℕ, zero, suc, ◌+◌, ◌≡◌, ◌≢◌, ◌<◌, inl, inr, refl, sym, ap, ◌∙◌, true, false, [], ◌∷◌, ◌++◌, ◌==◌,
  min, length, take, drop, arith, append-nil, append_assoc, length-take, length-drop,
  take-append-drop, drop-add, take-length-take, Bool-cases, Returns, Returns-map,
}
use tlpiexer.CText.{Bytes}
use tlpiexer.Copy.{Calls, ReadAnswer, no_read, upto, whole, Io, unread, read, write}
use tlpiexer.Copy.Moved.{onward}
use tlpiexer.Copy.Programs.{Exit, success, cp_loop, cp}

module _ (io : Io) (k : ℕ) where
  -- What a call of `read` into the buffer of 1024 bytes gives.
  abbrev pub block : Bytes
  block = take (min 1024 (suc k)) (unread io)

  -- An empty block is the end of the file, and another leaves less behind it.
  pub at_end : (length block == 0) ≡ true → unread io ≡ []
  at_end e =
      let l = length-take (min 1024 (suc k)) (unread io) in
      let none_there : length (unread io) ≡ 0 = ground arith in empty (unread io) none_there
    where
      empty : (s : Bytes) → length s ≡ 0 → s ≡ []
      empty [] e = refl
      empty (x ∷ s) e = absurd (omega arith)

  pub less_left :
      (length block == 0) ≡ false → length (unread (onward io block)) < length (unread io)
  less_left e =
      let l = length-take (min 1024 (suc k)) (unread io) in
      let some_there : 0 < length block = ground arith in
      omega (arith, length-drop io.pos io.content, length-drop (io.pos + length block) io.content)

  -- The block, and what is behind it.
  pub block-rest : block ++ unread (onward io block) ≡ unread io
  block-rest = rw (drop-add io.pos (length block) io.content) (
      ap (λ b. b ++ drop (length block) (unread io))
        (sym (take-length-take (min 1024 (suc k)) (unread io)))
      ∙ take-append-drop (length block) (unread io))

-- Where no `read` fails and every `write` takes all of its block, `cp` succeeds and the copy is the source.
abbrev pub Copied : Io → Exit × Io → Type 0
Copied io (e, io') = (e ≡ success) × (io'.output ≡ io.output ++ unread io)

-- Nothing is left of the file.
pub all_out : (io : Io) (s : Bytes) → unread io ≡ [] → s ≡ s ++ unread io
all_out io s e = sym (append-nil s) ∙ ap (λ b. s ++ b) (sym e)

Copied-onward :
    (io : Io) (k : ℕ) (out : Exit × Io) → Copied (onward io (block io k)) out → Copied io out
Copied-onward io k (e, io') (ok_there, o) = (
  ok_there,
  o ∙ append_assoc io.output (block io k) _ ∙ ap (λ b. io.output ++ b) (block-rest io k),
)

-- One round of `cp`, by the answer of its `read`.
cp_round :
    (f : ℕ) (c : Calls) (io : Io) (rd : ReadAnswer)
    → c.reads io.count ≡ rd
    → rd ≢ no_read
    → c.writes io.count ≡ whole
    → ((k : ℕ)
        → length (unread (onward io (block io k))) < length (unread io)
        → Returns (Copied (onward io (block io k))) (cp_loop f c (onward io (block io k))))
    → Returns (Copied io) (cp_loop (suc f) c io)
unfolding cp_loop read write
cp_round f c io no_read e readable w ih = absurd (readable refl)
cp_round f c io (upto k) e readable w ih = elim (Bool-cases (length (block io k) == 0)) [
  | inl end ↦ rw (cp_loop, read, e, w, end) (rw e (refl, all_out io io.output (at_end io k end)))
  | inr more ↦
      rw (cp_loop, read, e, w, more)
        (rw (e, w)
          (Returns-map (Copied (onward io (block io k))) (Copied io) _ (Copied-onward io k)
            (ih k (less_left io k more))))
]

cp_loop-Copied :
    (f : ℕ) (c : Calls) (io : Io)
    → length (unread io) < f
    → ((i : ℕ) → c.reads i ≢ no_read)
    → ((i : ℕ) → c.writes i ≡ whole)
    → Returns (Copied io) (cp_loop f c io)
cp_loop-Copied zero c io enough readable all = absurd (omega arith)
cp_loop-Copied (suc f) c io enough readable all =
    cp_round f c io (c.reads io.count) refl (readable io.count) (all io.count)
      (λ k less. cp_loop-Copied f c (onward io (block io k)) (omega arith) readable all)

-- With three arguments and both files open, where no `read` fails and every `write` takes all of
-- its block, `cp` exits with success and has appended all of the source, from its position on, to
-- the copy; the fuel is for more than the bytes of it.
pub cp-Copied :
    (fuel : ℕ) (c : Calls) (io : Io)
    → length (unread io) < fuel
    → ((i : ℕ) → c.reads i ≢ no_read)
    → ((i : ℕ) → c.writes i ≡ whole)
    → Returns (Copied io) (cp fuel c 3 true true io)
unfolding cp
cp-Copied fuel c io enough readable all = cp_loop-Copied fuel c io enough readable all
