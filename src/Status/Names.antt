-- ===== src/Status/Names.antt =====
-- What `verifyproc` of src/imp/12-01.c shows of a status file.
use tlpiexer.Prelude.{
  ℕ, ◌+◌, ◌≡◌, ◌≢◌, ◌<◌, refl, true, false, none, some, List, [], ◌∷◌, ◌++◌, ◌==◌, if◌then◌else◌,
  length, take, drop, arith, lt→ltb, ok, Bool-cases, inl, inr,
}
use tlpiexer.CText.{Bytes, text, NoNewline}
use tlpiexer.Status.{
  skip_space, strtol, to_32, uid_tag, pid_tag, name_tag, uid_from_sfile, pid_from_sfile,
  name_from_sfile, to_newline, put_name, isnumber, verifyproc,
}
use tlpiexer.Status.Lines.{Others, Tagged, find_tag-Tagged, find_tag-missing}

uid_tag-NoNewline : NoNewline uid_tag
uid_tag-NoNewline =
    ((λ e. omega arith), ((λ e. omega arith), ((λ e. omega arith), ((λ e. omega arith), tt))))

pid_tag-NoNewline : NoNewline pid_tag
pid_tag-NoNewline =
    ((λ e. omega arith), ((λ e. omega arith), ((λ e. omega arith), ((λ e. omega arith), tt))))

pub name_tag-NoNewline : NoNewline name_tag
name_tag-NoNewline = (
  (λ e. omega arith),
  ((λ e. omega arith), ((λ e. omega arith), ((λ e. omega arith), ((λ e. omega arith), tt)))),
)

-- Behind a tag stands a tab, which is skipped.
pub skip_space-tab : (rest : Bytes) → skip_space (9 ∷ rest) ≡ ok rest
unfolding skip_space
skip_space-tab rest = refl

pub uid_from_sfile-Tagged :
    (fuel size : ℕ) (file rest : Bytes)
    → Tagged uid_tag file size fuel (9 ∷ rest)
    → uid_from_sfile fuel file size ≡ ok (to_32 (strtol rest))
unfolding uid_from_sfile
uid_from_sfile-Tagged fuel size file rest t =
    rw (find_tag-Tagged uid_tag file size fuel (9 ∷ rest) uid_tag-NoNewline t, skip_space-tab rest)

pid_from_sfile-Tagged :
    (fuel size : ℕ) (file rest : Bytes)
    → Tagged pid_tag file size fuel (9 ∷ rest)
    → pid_from_sfile fuel file size ≡ ok (to_32 (strtol rest))
unfolding pid_from_sfile
pid_from_sfile-Tagged fuel size file rest t =
    rw (find_tag-Tagged pid_tag file size fuel (9 ∷ rest) pid_tag-NoNewline t, skip_space-tab rest)

pub to_newline-line :
    (name rest : Bytes) → NoNewline name → to_newline (name ++ 10 ∷ rest) ≡ ok name
unfolding to_newline
to_newline-line [] rest n = refl
to_newline-line (c ∷ name) rest (n, ns) =
    let e : (c == 10) ≡ false = ground arith in rw (e, to_newline-line name rest ns)

-- The name in its array: behind it one byte stays as it was, and then comes the NUL.
unfoldable pub named : Bytes → Bytes → Bytes
named name pname = name ++ take 1 (drop (length name) pname) ++ 0 ∷ drop (length name + 2) pname

name_from_sfile-Tagged :
    (fuel size : ℕ) (file name rest pname : Bytes)
    → Tagged name_tag file size fuel (9 ∷ name ++ 10 ∷ rest)
    → NoNewline name
    → length name + 1 < length pname
    → name_from_sfile fuel file size pname ≡ ok (0, named name pname)
unfolding name_from_sfile put_name named
name_from_sfile-Tagged fuel size file name rest pname t n room = rw (
  find_tag-Tagged name_tag file size fuel (9 ∷ name ++ 10 ∷ rest) name_tag-NoNewline t,
  skip_space-tab (name ++ 10 ∷ rest),
  to_newline-line name rest n,
  lt→ltb (length name + 1) (length pname) room,
)

-- For a directory of digits whose status file has the lines Uid, Pid and Name, each with a tab
-- behind its tag, a name that fits its array, and an owner asked for that is not 2 ^ 32 - 1: the
-- process is shown exactly if it has that owner, with its id, and with the array of the name, in
-- which the NUL stands one byte too far behind.
pub verifyproc-Tagged :
    (fuel size uid : ℕ) (dirname file ruid rpid name rname pname : Bytes)
    → isnumber dirname ≡ true
    → Tagged uid_tag file size fuel (9 ∷ ruid)
    → Tagged pid_tag file size fuel (9 ∷ rpid)
    → Tagged name_tag file size fuel (9 ∷ name ++ 10 ∷ rname)
    → NoNewline name
    → length name + 1 < length pname
    → uid ≢ 4294967295
    → verifyproc fuel dirname (some (file, size)) pname uid
      ≡ ok (
          if to_32 (strtol ruid) == uid then some (to_32 (strtol rpid), named name pname) else none)
unfolding verifyproc
verifyproc-Tagged fuel size uid dirname file ruid rpid name rname pname number tu tp tn n room
      valid =
    elim (Bool-cases (to_32 (strtol ruid) == uid)) [
      | inl same ↦
          let not_max : (to_32 (strtol ruid) == 4294967295) ≡ false = ground arith in
          rw (
            number,
            uid_from_sfile-Tagged fuel size file ruid tu,
            not_max,
            same,
            pid_from_sfile-Tagged fuel size file rpid tp,
            name_from_sfile-Tagged fuel size file name rname pname tn n room,
          )
      | inr other ↦ elim (Bool-cases (to_32 (strtol ruid) == 4294967295)) [
        | inl max ↦ rw (number, uid_from_sfile-Tagged fuel size file ruid tu, max, other)
        | inr not_max ↦ rw (number, uid_from_sfile-Tagged fuel size file ruid tu, not_max, other)
      ]
    ]

-- In a file of whole lines none of which is the owner's or the process id's, `uid_from_sfile` and
-- `pid_from_sfile` return 1.
pub uid_from_sfile-missing :
    (fuel : ℕ) (lines : List Bytes) (behind : Bytes)
    → Others uid_tag lines
    → Others pid_tag lines
    → length lines < fuel
    → (uid_from_sfile fuel (text lines ++ behind) (length (text lines)) ≡ ok 1)
      × (pid_from_sfile fuel (text lines ++ behind) (length (text lines)) ≡ ok 1)
unfolding uid_from_sfile pid_from_sfile
uid_from_sfile-missing fuel lines behind no_uid no_pid enough = (
  rw (find_tag-missing uid_tag lines behind fuel uid_tag-NoNewline no_uid enough),
  rw (find_tag-missing pid_tag lines behind fuel pid_tag-NoNewline no_pid enough),
)
