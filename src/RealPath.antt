-- ===== src/RealPath.antt =====
-- `solve_dot` and `realpath_x` of src/imp/18-03.c. Paths are lists of bytes without their NUL, taken to be
-- shorter than PATH_MAX.
pub mod Parts
pub mod Resolve
pub mod Enter
pub mod Whole
pub mod Links
mod Tests
use tlpiexer.Prelude.{
  ℕ, zero, suc, ◌+◌, ◌-◌, Bool, not, ◌&&◌, Option, none, some, List, [], ◌∷◌, ◌++◌, ◌==◌,
  if◌then◌else◌, take, get_elem?, length, set, Run, ok, fault, out_of_fuel, ◌>>=◌,
}
use tlpiexer.CText.{Bytes}

-- '/' and '.'
abbrev pub slash : ℕ
slash = 47

abbrev pub dot : ℕ
dot = 46

-- `path[i] == c`; behind the path stands its NUL.
abbrev pub byte_is : Option ℕ → ℕ → Bool
byte_is none c = c == 0
byte_is (some b) c = b == c

abbrev pub is_at : Bytes → ℕ → ℕ → Bool
is_at path i c = byte_is (get_elem? path i) c

-- `for (jx--; path[jx] != '/'; jx--)`: in front of the path is a fault.
unfoldable pub back : ℕ → Bytes → Run ℕ
back zero path = fault
back (suc jx) path = let rest = back jx path in if is_at path jx slash then ok jx else rest

-- The variables of the loop but `i`
pub record Dots : Type 0 where
  pub path : Bytes
  pub j : ℕ
  pub jx : ℕ
  pub jy : ℕ

-- A round at a slash
unfoldable pub at_slash : Dots → Run Dots
at_slash s =
    let offset = s.j - s.jy in
    if offset == 3
    then if is_at s.path (s.jy + 1) dot && is_at s.path (s.jy + 2) dot
      then (back s.jx s.path >>= λ jx. ok (record s { j = s.jx; jx = jx; jy = s.jx }))
      else ok s
    else if offset == 2
    then if is_at s.path (s.jy + 1) dot then ok (record s { j = s.jy }) else ok s
    else if offset == 1
    then ok (record s { j = s.jy })
    else ok (record { path = set s.path s.j slash; j = s.j; jx = s.jy; jy = s.j })

-- The loop, with so many bytes from `i` on.
unfoldable pub dot_loop : ℕ → ℕ → Dots → Run Dots
dot_loop zero i s = ok s
dot_loop (suc left) i s = elim (get_elem? s.path i) [
  | none ↦ fault
  | some c ↦
      let next = if c == slash then at_slash s else ok (record s { path = set s.path s.j c }) in
      next >>= λ t. dot_loop left (i + 1) (record t { j = t.j + 1 })
]

unfoldable pub solve_dot : Bytes → Run (Option Bytes)
solve_dot path =
    if is_at path 0 slash
    then (dot_loop (length path) 0 (record { path = path; j = 0; jx = 0; jy = 0 }) >>= λ s.
        ok (some (take s.j s.path)))
    else ok none

-- The calls of the system, by the path: whether it is a link, if `lstat` succeeds, what `readlink`
-- gives, the working directory, and the C library's `dirname`.
pub record Calls : Type 0 where
  pub lstat : Bytes → Option Bool
  pub readlink : Bytes → Option Bytes
  pub dirname : Bytes → Bytes
  pub getcwd : Option Bytes

-- `lpath`, the contents of a link, seen from the link.
abbrev pub follow : Calls → Bytes → Bytes → Bytes
follow calls fpath lpath =
    if is_at lpath 0 slash then lpath else calls.dirname fpath ++ slash ∷ lpath

-- The loop over links; `none` is NULL.
unfoldable pub solve_links : ℕ → Calls → Bytes → Run (Option Bytes)
solve_links zero calls fpath = out_of_fuel
solve_links (suc f) calls fpath = elim (calls.lstat fpath) [
  | none ↦ ok none
  | some link ↦ if not link then ok (some fpath) else elim (calls.readlink fpath) [
    | none ↦ ok none
    | some lpath ↦ solve_links f calls (follow calls fpath lpath)
  ]
]

-- `resolved_path` is given.
unfoldable pub realpath_x : ℕ → Calls → Bytes → Run (Option Bytes)
realpath_x fuel calls path =
    let start : Option Bytes =
      if is_at path 0 slash
      then some path
      else elim calls.getcwd [ none ↦ none | some cwd ↦ some (cwd ++ slash ∷ path) ] in
    elim start [
      | none ↦ ok none
      | some fpath ↦ solve_links fuel calls fpath >>= λ end. elim end [
        | none ↦ ok none
        | some fpath ↦ solve_dot fpath
      ]
    ]
