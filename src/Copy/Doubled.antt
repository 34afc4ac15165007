-- ===== src/Copy/Doubled.antt =====
-- `tee` of src/imp/04-01.c, from its input to both of its outputs.
use tlpiexer.Prelude.{
  ℕ, zero, suc, ◌≡◌, ◌≢◌, ◌<◌, inl, inr, refl, sym, ap, ◌∙◌, Bool, true, false, Option, some, List,
  [], ◌∷◌, ◌++◌, ◌==◌, if◌then◌else◌, length, arith, append_assoc, Bool-cases, Returns, Returns-map,
  Returns-bind,
}
use tlpiexer.CText.{Bytes}
use tlpiexer.Copy.{Calls, ReadAnswer, no_read, upto, WriteAnswer, whole, Io, unread, read, write}
use tlpiexer.Copy.Moved.{onward}
use tlpiexer.Copy.Programs.{Exit, success, tee_loop, tee, tee_flags, opened, close_failed}
use tlpiexer.Copy.Whole.{block, at_end, less_left, block-rest, all_out}

-- Both copies are the old text and the input.
abbrev pub Doubled : Bool → Io → Bytes → Exit × Io × Bytes → Type 0
Doubled closes io file (e, io', file') =
    (e ≡ (if closes then success else close_failed))
    × (io'.output ≡ io.output ++ unread io)
    × (file' ≡ file ++ unread io)

module _ (c : Calls) (w : ℕ → WriteAnswer) (closes : Bool) (io : Io) (file : Bytes) where
  Doubled-onward :
      (k : ℕ) (out : Exit × Io × Bytes)
      → Doubled closes (onward io (block io k)) (file ++ block io k) out
      → Doubled closes io file out
  Doubled-onward k (e, io', file') (ended, o, f) = (
    ended,
    o ∙ append_assoc io.output (block io k) _ ∙ ap (λ b. io.output ++ b) (block-rest io k),
    f ∙ append_assoc file (block io k) _ ∙ ap (λ b. file ++ b) (block-rest io k),
  )

  -- One round of `tee`, by the answer of its `read`.
  tee_round :
      (f : ℕ) (rd : ReadAnswer)
      → c.reads io.count ≡ rd
      → rd ≢ no_read
      → c.writes io.count ≡ whole
      → w io.count ≡ whole
      → ((k : ℕ)
          → length (unread (onward io (block io k))) < length (unread io)
          → Returns
              (Doubled closes (onward io (block io k)) (file ++ block io k))
              (tee_loop f c w closes (onward io (block io k)) (file ++ block io k)))
      → Returns (Doubled closes io file) (tee_loop (suc f) c w closes io file)
  unfolding tee_loop read write
  tee_round f no_read e readable all all_w ih = absurd (readable refl)
  tee_round f (upto k) e readable all all_w ih = elim (Bool-cases (length (block io k) == 0)) [
    | inl end ↦
        rw (tee_loop, read, e, all, end)
          (rw e (refl, all_out io io.output (at_end io k end), all_out io file (at_end io k end)))
    | inr more ↦
        let self : (length (block io k) == length (block io k)) ≡ true = ground arith in
        rw (tee_loop, read, e, all, all_w, more)
          (rw (e, self)
            (Returns-map (Doubled closes (onward io (block io k)) (file ++ block io k))
              (Doubled closes io file) _ (Doubled-onward k) (ih k (less_left io k more))))
  ]

tee_loop-Doubled :
    (f : ℕ) (c : Calls) (w : ℕ → WriteAnswer) (closes : Bool) (io : Io) (file : Bytes)
    → length (unread io) < f
    → ((i : ℕ) → c.reads i ≢ no_read)
    → ((i : ℕ) → c.writes i ≡ whole)
    → ((i : ℕ) → w i ≡ whole)
    → Returns (Doubled closes io file) (tee_loop f c w closes io file)
tee_loop-Doubled zero c w closes io file enough readable all all_w = absurd (omega arith)
tee_loop-Doubled (suc f) c w closes io file enough readable all all_w =
    tee_round c w closes io file f (c.reads io.count) refl (readable io.count) (all io.count)
      (all_w io.count)
      (λ k less.
        tee_loop-Doubled f c w closes (onward io (block io k)) (file ++ block io k) (omega arith)
          readable all all_w)

abbrev pub Written : Bool → Io → Bytes → Exit × Io × Option Bytes → Type 0
Written closes io text (e, io', file') =
    (e ≡ (if closes then success else close_failed))
    × (io'.output ≡ io.output ++ unread io)
    × (file' ≡ some (text ++ unread io))

-- Every option is `-a`.
abbrev pub OnlyA : List ℕ → Type 0
OnlyA [] = Unit {0}
OnlyA (opt ∷ opts) = (opt ≡ 97) × OnlyA opts

-- The text of the file before the first block: the old one with `-a`, and none without.
abbrev pub Before : List ℕ → Option Bytes → Bytes → Type 0
Before [] file text = text ≡ []
Before (opt ∷ opts) file text = file ≡ some text

flags-OnlyA : (opts : List ℕ) → OnlyA opts → tee_flags opts true ≡ some true
unfolding tee_flags
flags-OnlyA [] only = refl
flags-OnlyA (opt ∷ opts) (e, only) =
    let hit : (opt == 97) ≡ true = ground arith in rw hit (flags-OnlyA opts only)

-- The options that `-a` alone gives, and the file that is opened for them.
opened-Before :
    (opts : List ℕ) (file : Option Bytes) (text : Bytes)
    → OnlyA opts
    → Before opts file text
    → (append : Bool) × (tee_flags opts false ≡ some append) × (opened append file ≡ some text)
unfolding tee_flags
opened-Before [] file text only b = (false, refl, ap some (sym b))
opened-Before (opt ∷ opts) file text (e, only) b =
    let hit : (opt == 97) ≡ true = ground arith in (true, rw hit (flags-OnlyA opts only), b)

-- With no options but `-a`, an argument and a file that opens, where no `read` fails and every
-- `write` takes all of its block, `tee` writes all of its input to the output and behind the text
-- of its file: the old text with `-a`, where there must be a file, and none without. It exits
-- with success if `close` does; the fuel is for more than the bytes of the input.
pub tee-Written :
    (fuel : ℕ) (c : Calls) (w : ℕ → WriteAnswer) (closes : Bool) (opts : List ℕ)
    (file : Option Bytes) (text : Bytes) (io : Io)
    → length (unread io) < fuel
    → ((i : ℕ) → c.reads i ≢ no_read)
    → ((i : ℕ) → c.writes i ≡ whole)
    → ((i : ℕ) → w i ≡ whole)
    → OnlyA opts
    → Before opts file text
    → Returns (Written closes io text) (tee fuel c w closes opts true true file io)
unfolding tee
tee-Written fuel c w closes opts file text io enough readable all all_w only before =
    let (append, flags, there) = opened-Before opts file text only before in
    rw (tee, flags, there)
      (Returns-bind (Doubled closes io text) (Written closes io text) _ _
        (tee_loop-Doubled fuel c w closes io text enough readable all all_w)
        (λ (e, io', file') (ended, o, f). (ended, o, ap some f)))
