-- ===== src/Status/Tests.antt =====
-- Runs of `verifyproc` and `uid_from_sfile` of src/imp/12-01.c.
use tlpiexer.Prelude.{◌≡◌, refl, none, some, [], ◌∷◌, ◌++◌, ◌==◌, if◌then◌else◌, arith, ok}
use tlpiexer.CText.{Bytes, text, NoNewline}
use tlpiexer.Status.{
  uid_tag, pid_tag, name_tag, to_32, strtol, digits, verifyproc, uid_from_sfile, pid_from_sfile,
  isnumber, find_tag, at_tag, skip_line, skip_space, to_newline, put_name, name_from_sfile,
}
use tlpiexer.Status.Lines.{starts, Tagged}
use tlpiexer.Status.Names.{named, verifyproc-Tagged}

abbrev sh : Bytes
sh = 115 ∷ 104 ∷ []

-- `Name:`, a tab and `sh`; `Pid:`, a tab and `7`; `Uid:`, a tab and `5`
abbrev name_line : Bytes
name_line = name_tag ++ 9 ∷ sh

abbrev pid_line : Bytes
pid_line = pid_tag ++ 9 ∷ 55 ∷ []

abbrev uid_line : Bytes
uid_line = uid_tag ++ 9 ∷ 53 ∷ []

abbrev file : Bytes
file = name_line ++ 10 ∷ pid_line ++ 10 ∷ uid_line ++ 10 ∷ []

line-NoNewline : NoNewline name_line
line-NoNewline = (
  (λ e. omega arith),
  (
    (λ e. omega arith),
    (
      (λ e. omega arith),
      (
        (λ e. omega arith),
        ((λ e. omega arith), ((λ e. omega arith), ((λ e. omega arith), ((λ e. omega arith), tt)))),
      ),
    ),
  ),
)

pid_line-NoNewline : NoNewline pid_line
pid_line-NoNewline = (
  (λ e. omega arith),
  (
    (λ e. omega arith),
    ((λ e. omega arith), ((λ e. omega arith), ((λ e. omega arith), ((λ e. omega arith), tt)))),
  ),
)

file-name : Tagged name_tag file 24 5 (9 ∷ sh ++ 10 ∷ pid_line ++ 10 ∷ uid_line ++ 10 ∷ [])
unfolding text
file-name = record {
  lines = [];
  others = tt;
  shape = refl;
  inside = omega arith;
  enough = omega arith;
}

file-pid : Tagged pid_tag file 24 5 (9 ∷ 55 ∷ 10 ∷ uid_line ++ 10 ∷ [])
unfolding text starts
file-pid = record {
  lines = name_line ∷ [];
  others = ((line-NoNewline, refl), tt);
  shape = refl;
  inside = omega arith;
  enough = omega arith;
}

file-uid : Tagged uid_tag file 24 5 (9 ∷ 53 ∷ 10 ∷ [])
unfolding text starts
file-uid = record {
  lines = name_line ∷ pid_line ∷ [];
  others = ((line-NoNewline, refl), ((pid_line-NoNewline, refl), tt));
  shape = refl;
  inside = omega arith;
  enough = omega arith;
}

abbrev pname : Bytes
pname = 33 ∷ 33 ∷ 33 ∷ 33 ∷ 33 ∷ []

verifyproc-Tagged_example :
    verifyproc 5 (55 ∷ []) (some (file, 24)) pname 5
    ≡ ok (
        if to_32 (strtol (53 ∷ 10 ∷ [])) == 5
        then some (to_32 (strtol (55 ∷ 10 ∷ uid_line ++ 10 ∷ [])), named sh pname)
        else none)
unfolding isnumber
verifyproc-Tagged_example =
    verifyproc-Tagged 5 24 5 (55 ∷ []) file (53 ∷ 10 ∷ []) (55 ∷ 10 ∷ uid_line ++ 10 ∷ []) sh
      (pid_line ++ 10 ∷ uid_line ++ 10 ∷ []) pname refl file-uid file-pid file-name
      ((λ e. omega arith), ((λ e. omega arith), tt)) (omega arith) (λ e. omega arith)

-- The name is followed by a byte that the array held before.
seven :
    verifyproc 5 (55 ∷ []) (some (file, 24)) pname 5 ≡ ok (some (7, 115 ∷ 104 ∷ 33 ∷ 0 ∷ 33 ∷ []))
unfolding verifyproc isnumber uid_from_sfile pid_from_sfile name_from_sfile find_tag at_tag
    skip_line skip_space to_newline put_name to_32 strtol digits
seven = refl
