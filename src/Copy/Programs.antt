-- ===== src/Copy/Programs.antt =====
-- The loops of `main` in src/imp/04-02.c (`cp`) and src/imp/04-01.c (`tee`).
use tlpiexer.Prelude.{
  ℕ, zero, suc, Bool, true, false, not, Option, none, some, List, [], ◌∷◌, ◌==◌, if◌then◌else◌, Run,
  ok, out_of_fuel, ◌>>=◌, length,
}
use tlpiexer.CText.{Bytes}
use tlpiexer.Copy.{Calls, WriteAnswer, Io, read, write}

-- EXIT_SUCCESS, and the exits of EXIT_FAILURE by what they print
pub data Exit : Type 0 where
  success usage open_source open_dest read_failed write_failed close_failed : Exit

-- The loop of `cp`: a `write` that takes less than it is given is not noticed.
unfoldable pub cp_loop : ℕ → Calls → Io → Run (Exit × Io)
cp_loop zero c io = out_of_fuel
cp_loop (suc f) c io =
    let (rsize, io1) = read (c.reads io.count) 1024 io in
    elim rsize [
      | none ↦ ok (read_failed, io1)
      | some buf ↦
          let (wsize, io2) = write (c.writes io.count) buf io1 in
          let rest = cp_loop f c io2 in
          if length buf == 0
          then ok (success, io1)
          else elim wsize [ none ↦ ok (write_failed, io2) | some n ↦ rest ]
    ]

-- `cp source dest` with `argc` arguments: whether the two files could be opened.
unfoldable pub cp : ℕ → Calls → ℕ → Bool → Bool → Io → Run (Exit × Io)
cp fuel c argc source dest io =
    if not (argc == 3)
    then ok (usage, io)
    else if not source
    then ok (open_source, io)
    else if not dest
    then ok (open_dest, io)
    else cp_loop fuel c io

-- `wsize == rsize`
abbrev pub is_length : Option ℕ → Bytes → Bool
is_length none buf = false
is_length (some n) buf = n == length buf

-- The loop of `tee`, and what follows it: the answers of `write` for the file, the file, and whether
-- `close` succeeds.
unfoldable pub tee_loop :
    ℕ → Calls → (ℕ → WriteAnswer) → Bool → Io → Bytes → Run (Exit × Io × Bytes)
tee_loop zero c w closes io file = out_of_fuel
tee_loop (suc f) c w closes io file =
    let (rsize, io1) = read (c.reads io.count) 1024 io in
    elim rsize [
      | none ↦ ok (read_failed, io1, file)
      | some buf ↦
          let (wsize, io2) = write (c.writes io.count) buf io1 in
          let (wsize', io3) = write (w io.count) buf (record io2 { output = file }) in
          let rest = tee_loop f c w closes io2 io3.output in
          if length buf == 0
          then ok ((if closes then success else close_failed), io1, file)
          else if not (is_length wsize buf)
          then ok (write_failed, io2, file)
          else if not (is_length wsize' buf)
          then ok (write_failed, io2, io3.output)
          else rest
    ]

-- The flags by the options that `getopt` gives one after the other: `true` is O_WRONLY | O_APPEND, and
-- `none` the help text.
unfoldable pub tee_flags : List ℕ → Bool → Option Bool
tee_flags [] append = some append
tee_flags (opt ∷ opts) append = if opt == 97 then tee_flags opts true else none

-- The file that `open` gives, if it opens one: O_TRUNC | O_CREAT empties or makes it, and O_APPEND alone
-- takes only one that is there.
abbrev pub opened : Bool → Option Bytes → Option Bytes
opened true file = file
opened false file = some []

-- `tee` with its options, whether an argument follows them, and whether `open` may succeed.
unfoldable pub tee :
    ℕ
    → Calls
    → (ℕ → WriteAnswer)
    → Bool
    → List ℕ
    → Bool
    → Bool
    → Option Bytes
    → Io
    → Run (Exit × Io × Option Bytes)
tee fuel c w closes opts argument may_open file io = elim (tee_flags opts false) [
  | none ↦ ok (usage, io, file)
  | some append ↦
      if not argument
      then ok (usage, io, file)
      else if not may_open
      then ok (open_dest, io, file)
      else elim (opened append file) [
        | none ↦ ok (open_dest, io, file)
        | some text ↦
            (tee_loop fuel c w closes io text >>= λ (e, io', file'). ok (e, io', some file'))
      ]
]
