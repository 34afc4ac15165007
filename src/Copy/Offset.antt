-- ===== src/Copy/Offset.antt =====
-- `sendfile_x` of src/lib/61-03.c, without and with an offset.
use tlpiexer.Prelude.{
  ℕ, ◌≡◌, ◌<◌, ◌⊎◌, inl, inr, refl, true, Option, none, some, arith, length, length-drop,
  Option-cases, Returns, Returns-bind, ℤ, pos,
}
use tlpiexer.Copy.{Calls, Io, unread}
use tlpiexer.Copy.Send.{Seek, sendfile_x, update_offset}
use tlpiexer.Copy.Sent.{Sent, transfer-Sent}

-- Without an offset, on a regular file and with fuel for more than the bytes that are left, the
-- call returns: it has moved the smaller of `count` and what is left of the file, from its
-- position on, or it returns FN_ER because some `read` failed or some `write` failed or took
-- less, and what it wrote is a prefix.
pub sendfile_x-Sent :
    (fuel : ℕ) (c : Calls) (lseek : Seek) (count : ℕ) (io : Io)
    → length (unread io) < fuel
    → Returns
        (λ (r, o, io'). Sent c count 0 io (r, io') × (o ≡ none))
        (sendfile_x fuel c lseek true none count io)
unfolding sendfile_x
sendfile_x-Sent fuel c lseek count io enough =
    Returns-bind (Sent c count 0 io) (λ (r, o, io'). Sent c count 0 io (r, io') × (o ≡ none)) _ _
      (transfer-Sent fuel c count 0 io enough) (λ out s. (s, refl))

update_offset-one :
    (lseek : Seek) (o : ℤ) (out : Option ℕ × Io)
    → ((io : Io) (n : ℕ) → lseek io n (pos 0) ≡ some n)
    → let (r, o', io') = update_offset lseek o out in
      (r ≡ none) ⊎ ((o' ≡ some (pos 1)) × (io'.pos ≡ 1))
unfolding update_offset
update_offset-one lseek o (none, io) sets = inl refl
update_offset-one lseek o (some n, io) sets = rw (update_offset, sets io 1) (inr (refl, refl))

-- With an offset, on a regular file, with fuel for more than its bytes and an `lseek` that obeys
-- SEEK_SET, the call returns, and if it succeeds the offset is 1 and the file at position 1,
-- whatever the offset was: `lseek` is given SEEK_CUR as the offset, and SEEK_SET as the whence.
pub sendfile_x-offset :
    (fuel : ℕ) (c : Calls) (lseek : Seek) (o : ℤ) (count : ℕ) (io : Io)
    → ((io : Io) (n : ℕ) → lseek io n (pos 0) ≡ some n)
    → length io.content < fuel
    → Returns
        (λ (r, o', io'). (r ≡ none) ⊎ ((o' ≡ some (pos 1)) × (io'.pos ≡ 1)))
        (sendfile_x fuel c lseek true (some o) count io)
unfolding sendfile_x
sendfile_x-offset fuel c lseek o count io sets enough = elim (Option-cases (lseek io 0 o)) [
  | inl off ↦ rw off (inl refl)
  | inr (p, e) ↦ rw e (
      let left : length (unread (record io { pos = p })) < fuel =
        omega (arith, length-drop p io.content) in
      Returns-bind (Sent c count 0 (record io { pos = p }))
        (λ (r, o', io'). (r ≡ none) ⊎ ((o' ≡ some (pos 1)) × (io'.pos ≡ 1))) _ _
        (transfer-Sent fuel c count 0 (record io { pos = p }) left)
        (λ out s. update_offset-one lseek o out sets))
]
