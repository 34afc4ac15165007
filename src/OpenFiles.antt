-- ===== src/OpenFiles.antt =====
-- The program of src/imp/12-03.c: the processes that have a file open. Its scan of a status file is line for
-- line that of src/imp/12-01.c, and so are the tests for digits.
pub mod Shown
mod Tests
use tlpiexer.Prelude.{
  ℕ, suc, ◌+◌, ◌-◌, ◌^◌, Bool, true, false, not, Option, none, some, List, [], ◌∷◌, ◌++◌, ltb,
  if◌then◌else◌, length, drop, Run, ok, fault, ◌>>=◌,
}
use tlpiexer.CText.{Bytes, c_str, strcmp_eq}
use tlpiexer.Status.{find_tag, skip_space, to_newline, name_tag, isnumber}

abbrev pub path_max : ℕ
path_max = 4096

abbrev pub pname_max : ℕ
pname_max = 128

-- An entry of the directory of descriptors: whether it is a link, and what `readlink` gives
pub record Entry : Type 0 where
  pub is_lnk : Bool
  pub link : Option Bytes

-- What `fdfproc` returns: 1, 0 or -1
pub data Found : Type 0 where
  open_there not_there failure : Found

-- The loop over the descriptors; `link[rsize]` is one behind the array where the link fills it.
unfoldable pub fd_loop : List Entry → Bytes → Run Found
fd_loop [] path = ok not_there
fd_loop (e ∷ es) path = elim e.is_lnk [
  | false ↦ fd_loop es path
  | true ↦ elim e.link [
    | none ↦ ok failure
    | some link ↦ elim (ltb (length link) path_max) [
      | false ↦ fault
      | true ↦ elim (strcmp_eq link path) [ false ↦ fd_loop es path | true ↦ ok open_there ]
    ]
  ]
]

-- `none` where `opendir` fails
unfoldable pub fdfproc : Option (List Entry) → Bytes → Run Found
fdfproc none path = ok failure
fdfproc (some entries) path = fd_loop entries path

-- `memcpy(name, ..., namesize); name[namesize] = '\0';`
unfoldable pub put_name : Bytes → Bytes → Run Bytes
put_name text name =
    if ltb (length text) (length name) then ok (text ++ 0 ∷ drop (length text + 1) name) else fault

-- The array `name` behind the call. It returns 0, or 1 where there is no such line.
unfoldable pub pnamefstatus : ℕ → Bytes → ℕ → Bytes → Run (ℕ × Bytes)
pnamefstatus fuel contents size name = find_tag fuel name_tag size contents 0 >>= λ found.
    elim found [
      | none ↦ ok (1, name)
      | some s ↦
          (skip_space s >>= λ s'.
          to_newline s' >>= λ text. put_name text name >>= λ name'. ok (0, name'))
    ]

-- A directory of /proc: its name, its descriptors, and its status file, where `open` succeeds: what `read` gives
pub record Subdir : Type 0 where
  pub d_name : Bytes
  pub fds : Option (List Entry)
  pub status : Option (Option Bytes)

-- The arrays `data` (`contents`) and `pname` of `main`, and the lines shown: the name and the process id
pub record Walk : Type 0 where
  pub contents : Bytes
  pub pname : Bytes
  pub shown : List (Bytes × Bytes)

-- The array and `rsize` behind `read`: -1 is the greatest `size_t`, which is not below 0.
abbrev pub read_data : Bytes → Option Bytes → Bytes × ℕ
read_data contents none = (contents, 2 ^ 64 - 1)
read_data contents (some bytes) = (bytes ++ drop (length bytes) contents, length bytes)

-- A round of `main` behind the test of `fdfproc`; `pnamefstatus` never returns -1.
unfoldable pub show : ℕ → Subdir → Option (Option Bytes) → Walk → Run Walk
show fuel p none w = ok w
show fuel p (some read) w =
    let (contents, rsize) = read_data w.contents read in
    pnamefstatus fuel contents rsize w.pname >>= λ (_, pname). ok (record {
      contents = contents;
      pname = pname;
      shown = w.shown ++ (c_str pname_max pname, p.d_name) ∷ [];
    })

abbrev pub show_if : Found → ℕ → Subdir → Walk → Run Walk
show_if open_there fuel p w = show fuel p p.status w
show_if _ fuel p w = ok w

unfoldable pub visit : ℕ → Bytes → Subdir → Walk → Run Walk
visit fuel path p w = elim (isnumber p.d_name) [
  | false ↦ ok w
  | true ↦ fdfproc p.fds path >>= λ found. show_if found fuel p w
]

-- The loop of `main` over /proc
unfoldable pub main_loop : ℕ → Bytes → List Subdir → Walk → Run Walk
main_loop fuel path [] w = ok w
main_loop fuel path (p ∷ ps) w = visit fuel path p w >>= λ w'. main_loop fuel path ps w'
