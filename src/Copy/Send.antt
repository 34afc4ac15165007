-- ===== src/Copy/Send.antt =====
-- `sendfile_x` of src/lib/61-03.c.
use tlpiexer.Prelude.{
  ℕ, zero, suc, ◌+◌, ◌-◌, Bool, not, Option, none, some, ◌==◌, leb, if◌then◌else◌, Run, ok,
  out_of_fuel, ◌>>=◌, length, ℤ, pos, fn_er,
}
use tlpiexer.Copy.{Calls, Io, read, write}

abbrev pub buf_size : ℕ
buf_size = 1024

abbrev pub to_rsize : ℕ → ℕ → ℕ
to_rsize count total = if leb buf_size (count - total) then buf_size else count - total

-- The loop: `none` is FN_ER, and a number is `total_wsize` behind it.
unfoldable pub transfer : ℕ → Calls → ℕ → ℕ → Io → Run (Option ℕ × Io)
transfer zero c count total io = out_of_fuel
transfer (suc f) c count total io =
    if leb count total
    then ok (some total, io)
    else (let (rsize, io1) = read (c.reads io.count) (to_rsize count total) io in
        elim rsize [
          | none ↦ ok (none, io1)
          | some buf ↦
              let (wsize, io2) = write (c.writes io.count) buf io1 in
              let rest = transfer f c count (total + length buf) io2 in
              if length buf == 0 then ok (some total, io1) else elim wsize [
                | none ↦ ok (none, io2)
                | some n ↦ if not (n == length buf) then ok (none, io2) else rest
              ]
        ])

abbrev pub seek_set : ℕ
seek_set = 0

abbrev pub seek_cur : ℕ
seek_cur = 1

-- `lseek` of the input, an argument of the model: the offset, the whence, and the position that it gives.
abbrev pub Seek : Type 0
Seek = Io → ℕ → ℤ → Option ℕ

-- The end of a call with an offset: `*offset = lseek(in_fd, SEEK_CUR, 0)`, the offset before the whence.
unfoldable pub update_offset : Seek → ℤ → Option ℕ × Io → Option ℕ × Option ℤ × Io
update_offset lseek o (none, io) = (none, some o, io)
update_offset lseek o (some n, io) = elim (lseek io seek_cur (pos 0)) [
  | none ↦ (none, some fn_er, io)
  | some p ↦ (some n, some (pos p), record io { pos = p })
]

-- `regular` says whether `fstat` succeeds on a regular file. The result, `*offset` behind the call if
-- there is an offset, and the files; the first `lseek(in_fd, SEEK_SET, *offset)` too has the offset
-- before the whence.
unfoldable pub sendfile_x :
    ℕ → Calls → Seek → Bool → Option ℤ → ℕ → Io → Run (Option ℕ × Option ℤ × Io)
sendfile_x fuel c lseek regular offset count io =
    if not regular then ok (none, offset, io) else elim offset [
      | none ↦ (transfer fuel c count 0 io >>= λ (r, io'). ok (r, none, io'))
      | some o ↦ elim (lseek io seek_set o) [
        | none ↦ ok (none, some o, io)
        | some p ↦
            (transfer fuel c count 0 (record io { pos = p }) >>= λ out.
            ok (update_offset lseek o out))
      ]
    ]
