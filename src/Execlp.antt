-- ===== src/Execlp.antt =====
-- `execlp` of src/imp/27-02.c: it looks for the program in the directories of PATH.
pub mod Search
pub mod Whole
mod Tests
use tlpiexer.Prelude.{
  ℕ, zero, suc, ◌+◌, ◌-◌, ◌/◌, ◌%◌, Bool, true, false, not, ◌||◌, Option, none, some, List, [], ◌∷◌,
  ◌++◌, ◌==◌, ltb, if◌then◌else◌, length, get_elem?, take, drop, Run, ok, fault, ◌>>=◌,
}
use tlpiexer.CText.{Bytes}

abbrev pub path_max : ℕ
path_max = 4096

-- The size of the array `argv`
abbrev pub argv_size : ℕ
argv_size = 127

-- `strchr(filename, '/') != NULL`
abbrev pub has_slash : Bytes → Bool
has_slash [] = false
has_slash (c ∷ s) = c == b'/' || has_slash s

-- `st_mode & S_IXUSR || st_mode & S_IXGRP || st_mode & S_IXOTH`
abbrev pub executable : ℕ → Bool
executable st_mode = st_mode / 64 % 2 == 1 || (st_mode / 8 % 2 == 1 || st_mode % 2 == 1)

module _ (stat : Bytes → Option ℕ) (filename epath : Bytes) where
  -- The loop over `epath`, with so many rounds left: the path with which it ends by `break`. `stat` gives
  -- the mode of the file at a path.
  unfoldable pub search : ℕ → ℕ → ℕ → Run (Option Bytes)
  search zero i pstart = ok none
  search (suc n) i pstart = elim (get_elem? epath i) [
    | none ↦ fault
    | some c ↦ elim (c == b':') [
      | false ↦ search n (i + 1) pstart
      | true ↦
          let path : Bytes = take (i - pstart) (drop pstart epath) ++ b'/' ∷ filename in
          elim (ltb (length path) path_max) [
            | false ↦ fault
            | true ↦ elim (stat path) [
              | none ↦ search n (i + 1) (i + 1)
              | some st_mode ↦ elim (executable st_mode) [
                | false ↦ search n (i + 1) (i + 1)
                | true ↦ ok (some path)
              ]
            ]
          ]
    ]
  ]

-- The path to execute: `env_path` is what `getenv` gives, `cs_path` what `confstr` does.
unfoldable pub find : (Bytes → Option ℕ) → Option Bytes → Bytes → Bytes → Run (Option Bytes)
find stat env_path cs_path filename =
    let epath : Bytes = elim env_path [ none ↦ cs_path | some path ↦ path ] in
    let found = search stat filename epath (length epath) 0 0 in
    if has_slash filename
    then (if ltb (length filename) path_max then ok (some filename) else fault)
    else found

-- The loop that copies the environment into `envp`, from the last string on.
unfoldable pub copy_env : ℕ → List Bytes → List Bytes → Run (List Bytes)
copy_env zero environ envp = ok envp
copy_env (suc i) environ envp = elim (get_elem? environ i) [
  | none ↦ fault
  | some s ↦ copy_env i environ (s ∷ envp)
]

-- How a call ends: it returns RET_FAILURE, or the process goes on with another program.
pub data Ends : Type 0 where
  returns : Ends
  executes : (path : Bytes) (argv envp : List Bytes) → Ends

-- `arg` and what follows it up to the NULL are `args`. `loads` is whether `execve` succeeds; where it does not,
-- the strings of the caller are freed, which did not come from `malloc`.
unfoldable pub execlp :
    (Bytes → Option ℕ)
    → (Bytes → Bool)
    → Option Bytes
    → Bytes
    → List Bytes
    → Bytes
    → List Bytes
    → Run Ends
execlp stat loads env_path cs_path environ filename args =
    find stat env_path cs_path filename >>= λ found. elim found [
      | none ↦ ok returns
      | some path ↦
          if not (ltb (length args) argv_size)
          then fault
          else (copy_env (length environ) environ [] >>= λ envp.
              if loads path
              then ok (executes path args envp)
              else elim args [ [] ↦ ok returns | a ∷ rest ↦ fault ])
    ]
