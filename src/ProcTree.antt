-- ===== src/ProcTree.antt =====
-- The process tree of src/imp/12-02.c. Its scans of a status file go as those of `Status`.
pub mod Walk
mod Tests
use tlpiexer.Prelude.{
  ℕ, zero, suc, ◌+◌, ◌-◌, ◌^◌, Bool, true, false, not, ◌||◌, Option, none, some, List, [], ◌∷◌,
  ◌++◌, ◌==◌, ltb, leb, if◌then◌else◌, length, Run, ok, fault, out_of_fuel, ◌>>=◌,
}
use tlpiexer.CText.{Bytes, strncpy}
use tlpiexer.Status.{
  find_tag, skip_space, strtol, to_32, to_newline, put_name, is_digit, pid_tag, name_tag,
}

-- `struct pinfo_t`; a `pid_t` is given by its 32 bits
pub record PInfo : Type 0 where
  pub pid : ℕ
  pub ppid : ℕ
  pub name : Bytes

-- `PPid:`
abbrev pub ppid_tag : Bytes
ppid_tag = 80 ∷ 80 ∷ 105 ∷ 100 ∷ 58 ∷ []

-- The slots that `maxpid` asks for
abbrev pub maxpid : ℕ
maxpid = 4096

unfoldable pub isnumberic : Bytes → Bool
isnumberic [] = true
isnumberic (c ∷ s) = let rest = isnumberic s in if not (is_digit c) then false else rest

unfoldable pub pidfstatus : ℕ → Bytes → ℕ → Run ℕ
pidfstatus fuel file size = find_tag fuel pid_tag size file 0 >>= λ found. elim found [
  | none ↦ ok 1
  | some s ↦ (skip_space s >>= λ s'. ok (to_32 (strtol s')))
]

unfoldable pub ppidfstatus : ℕ → Bytes → ℕ → Run ℕ
ppidfstatus fuel file size = find_tag fuel ppid_tag size file 0 >>= λ found. elim found [
  | none ↦ ok 1
  | some s ↦ (skip_space s >>= λ s'. ok (to_32 (strtol s')))
]

-- The name is copied by `strncpy`, which pads behind a NUL in it.
unfoldable pub pnamefstatus : ℕ → Bytes → ℕ → Bytes → Run (ℕ × Bytes)
pnamefstatus fuel file size name = find_tag fuel name_tag size file 0 >>= λ found. elim found [
  | none ↦ ok (1, name)
  | some s ↦
      (skip_space s >>= λ s'. to_newline s' >>= λ text.
      put_name (strncpy (length text) text) name >>= λ name'. ok (0, name'))
]

-- A directory of /proc: its name, the array and the `rsize` behind `read` if `open` succeeds, and whether
-- `close` does. A `read` that fails gives the greatest `size_t`, which is not < 0.
pub record Dir : Type 0 where
  pub name : Bytes
  pub status : Option (Bytes × ℕ)
  pub closes : Bool

-- The loop of `parseproc` from slot `i` on; `junk` is what the slots hold before, and `none` -1.
unfoldable pub parseproc : ℕ → (ℕ → PInfo) → ℕ → ℕ → List Dir → Run (Option (List PInfo))
parseproc fuel junk size i [] = ok (some [])
parseproc fuel junk size i (d ∷ dirs) =
    let skipped = parseproc fuel junk size i dirs in
    let rest = parseproc fuel junk size (i + 1) dirs in
    if ltb size i then ok none else if not (isnumberic d.name) then skipped else elim d.status [
      | none ↦ skipped
      | some (file, rsize) ↦
          if not d.closes
          then ok none
          else if leb size i
          then fault
          else (pidfstatus fuel file rsize >>= λ pid.
              if pid == 2 ^ 32 - 1
              then ok none
              else (ppidfstatus fuel file rsize >>= λ ppid.
                  if ppid == 2 ^ 32 - 1
                  then ok none
                  else (pnamefstatus fuel file size (junk i).name >>= λ (ret, name).
                      if not (ret == 0)
                      then ok none
                      else (rest >>= λ found. ok (elim found [
                        | none ↦ none
                        | some procs ↦ some (record { pid = pid; ppid = ppid; name = name } ∷ procs)
                      ])))))
    ]

-- A line of the output: how far it is indented, and the process that it shows.
abbrev pub Line : Type 0
Line = ℕ × PInfo

-- `list[i].pid == parent->pid || list[i].ppid != parent->pid`
abbrev pub skips : PInfo → PInfo → Bool
skips parent e = (e.pid == parent.pid) || not (e.ppid == parent.pid)

-- The loop of `ptree` over the list, with the call for a child.
unfoldable pub children : (PInfo → Run (List Line)) → PInfo → List PInfo → Run (List Line)
children show parent [] = ok []
children show parent (e ∷ list) =
    let rest = children show parent list in
    if skips parent e then rest else (show e >>= λ a. rest >>= λ b. ok (a ++ b))

unfoldable pub ptree : ℕ → ℕ → PInfo → List PInfo → Run (List Line)
ptree zero level parent list = out_of_fuel
ptree (suc f) level parent list =
    children (λ e. ptree f (suc level) e list) parent list >>= λ lines. ok ((level, parent) ∷ lines)

-- The process that `main` puts on top, behind one slot that nothing has set.
abbrev pub top : PInfo
top = record { pid = 0; ppid = 0; name = 105 ∷ 110 ∷ 105 ∷ 116 ∷ [] }

-- What `main` shows; `none` where it fails.
unfoldable pub main : ℕ → ℕ → (ℕ → PInfo) → Bool → List Dir → Run (Option (List Line))
main fuel depth junk memory dirs =
    if not memory
    then ok none
    else (parseproc fuel junk maxpid 0 dirs >>= λ found. elim found [
      | none ↦ ok none
      | some procs ↦
          if leb maxpid (length procs + 1)
          then fault
          else (ptree depth 0 top (procs ++ junk (length procs) ∷ []) >>= λ lines. ok (some lines))
    ])
