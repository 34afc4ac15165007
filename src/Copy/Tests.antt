-- ===== src/Copy/Tests.antt =====
-- Runs of the loops that copy.
use tlpiexer.Prelude.{
  ◌+◌, ◌≡◌, refl, true, none, some, List, [], ◌∷◌, ◌==◌, if◌then◌else◌, length, arith, ok, Returns,
  pos, negsuc,
}
use tlpiexer.CText.{Bytes}
use tlpiexer.Copy.{
  Calls, ReadAnswer, no_read, upto, WriteAnswer, whole, part, Io, unread, read, write,
}
use tlpiexer.Copy.Send.{Seek, transfer, sendfile_x}
use tlpiexer.Copy.Sent.{Sent}
use tlpiexer.Copy.Offset.{sendfile_x-Sent}
use tlpiexer.Copy.Programs.{success, cp_loop, cp, tee}
use tlpiexer.Copy.Whole.{Copied, cp-Copied}
use tlpiexer.Copy.Doubled.{Written, tee-Written}

-- A file of four bytes, of which each `read` gives two.
abbrev file : Io
file = record { content = 1 ∷ 2 ∷ 3 ∷ 4 ∷ []; pos = 0; output = []; count = 0 }

abbrev by_two : Calls
by_two = record { reads = λ i. upto 1; writes = λ i. whole }

abbrev seek : Seek
seek io n whence = elim whence [
  | pos k ↦
      if k == 0
      then some n
      else if k == 1
      then some (io.pos + n)
      else if k == 2
      then some (length io.content + n)
      else none
  | negsuc k ↦ none
]

sendfile_x-Sent_example :
    Returns
      (λ (r, o, io'). Sent by_two 3 0 file (r, io') × (o ≡ none))
      (sendfile_x 5 by_two seek true none 3 file)
sendfile_x-Sent_example = sendfile_x-Sent 5 by_two seek 3 file (omega arith)

-- Three bytes from the offset 0 leave the offset 1.
three_from_start :
    sendfile_x 5 by_two seek true (some (pos 0)) 3 file
    ≡ ok (
      some 3,
      some (pos 1),
      record { content = 1 ∷ 2 ∷ 3 ∷ 4 ∷ []; pos = 1; output = 1 ∷ 2 ∷ 3 ∷ []; count = 2 },
    )
unfolding sendfile_x transfer read write tlpiexer.Copy.Send.update_offset
three_from_start = refl

cp-Copied_example : Returns (Copied file) (cp 5 by_two 3 true true file)
cp-Copied_example = cp-Copied 5 by_two file (omega arith) (λ i e. cc) (λ i. refl)

-- Where a `write` takes one byte of two, `cp` exits with success all the same.
abbrev short_writes : Calls
short_writes = record { reads = λ i. upto 1; writes = λ i. part 0 }

cp_loses_bytes :
    cp 5 short_writes 3 true true file
    ≡ ok (success, record { content = 1 ∷ 2 ∷ 3 ∷ 4 ∷ []; pos = 4; output = 1 ∷ 3 ∷ []; count = 3 })
unfolding cp cp_loop read write
cp_loses_bytes = refl

-- `tee -a` behind a file of one byte
tee-Written_example :
    Returns
      (Written true file (9 ∷ []))
      (tee 5 by_two (λ i. whole) true (97 ∷ []) true true (some (9 ∷ [])) file)
tee-Written_example =
    tee-Written 5 by_two (λ i. whole) true (97 ∷ []) (some (9 ∷ [])) (9 ∷ []) file (omega arith)
      (λ i e. cc) (λ i. refl) (λ i. refl) (refl, tt) refl

abbrev elements : List Bytes
elements = (5 ∷ 6 ∷ []) ∷ (7 ∷ []) ∷ []
