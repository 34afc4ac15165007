-- ===== src/Execlp/Whole.antt =====
-- What a call of `execlp` of src/imp/27-02.c comes to.
use tlpiexer.Prelude.{
  ℕ, zero, suc, ◌+◌, ◌≡◌, ◌<◌, ◌≤◌, refl, sym, ap, ◌∙◌, Bool, true, Option, none, some, List, [],
  ◌∷◌, ◌++◌, ltb, if◌then◌else◌, length, get_elem?, take, append-nil, append_assoc, take-all, arith,
  ok, fault, Bool-cases, Option-cases, inl, inr,
}
use tlpiexer.CText.{Bytes}
use tlpiexer.Execlp.{path_max, argv_size, has_slash, find, copy_env, returns, executes, execlp}
use tlpiexer.Execlp.Search.{split_at_colons, all_but_last, first_in, search_lem}

elem-take :
    (i : ℕ) (xs : List Bytes)
    → i < length xs
    → (x : Bytes) × (get_elem? xs i ≡ some x) × (take (i + 1) xs ≡ take i xs ++ x ∷ [])
elem-take i [] h = absurd (omega arith)
elem-take zero (x ∷ xs) h = (x, refl, refl)
elem-take (suc i) (y ∷ xs) h =
    let (x, at, cut) = elem-take i xs (omega arith) in
    let next : suc i + 1 ≡ suc (i + 1) = omega arith in
    (x, at, ap (λ n. take n (y ∷ xs)) next ∙ ap (λ l. y ∷ l) cut)

copy_env-take :
    (i : ℕ) (environ envp : List Bytes)
    → i ≤ length environ
    → copy_env i environ envp ≡ ok (take i environ ++ envp)
unfolding copy_env
copy_env-take zero environ envp h = refl
copy_env-take (suc i) environ envp h =
    let (x, at, cut) = elem-take i environ (omega arith) in
    let next : suc i ≡ i + 1 = omega arith in
    rw (copy_env, at, next, cut)
      (copy_env-take i environ (x ∷ envp) (omega arith)
        ∙ ap ok (sym (append_assoc (take i environ) (x ∷ []) envp)))

copy_env-all : (environ : List Bytes) → copy_env (length environ) environ [] ≡ ok environ
copy_env-all environ =
    copy_env-take (length environ) environ [] (omega arith)
    ∙ ap ok (append-nil _ ∙ take-all (length environ) environ (omega arith))

-- The value of PATH, or what `confstr` gives
abbrev pub path_of : Option Bytes → Bytes → Bytes
path_of none cs_path = cs_path
path_of (some path) cs_path = path

-- What is executed: a path as it is, and a name in the first of all directories of PATH but the last that has it.
abbrev pub program : (Bytes → Option ℕ) → Bytes → Bytes → Option Bytes
program stat epath filename =
    if has_slash filename
    then some filename
    else first_in stat filename (all_but_last (split_at_colons epath))

find-program :
    (stat : Bytes → Option ℕ) (env_path : Option Bytes) (cs_path filename : Bytes)
    → length (path_of env_path cs_path) + length filename + 1 < path_max
    → find stat env_path cs_path filename ≡ ok (program stat (path_of env_path cs_path) filename)
unfolding find
find-program stat none cs_path filename h = elim (Bool-cases (has_slash filename)) [
  | inl slash ↦
      let fits : ltb (length filename) path_max ≡ true = ground arith in rw (slash, fits) refl
  | inr name ↦ rw name (search_lem stat filename cs_path h)
]
find-program stat (some path) cs_path filename h = elim (Bool-cases (has_slash filename)) [
  | inl slash ↦
      let fits : ltb (length filename) path_max ≡ true = ground arith in rw (slash, fits) refl
  | inr name ↦ rw name (search_lem stat filename path h)
]

module _ (stat : Bytes → Option ℕ) (loads : Bytes → Bool) (env_path : Option Bytes)
    (cs_path : Bytes) (environ : List Bytes) (filename : Bytes) (args : List Bytes) where
  -- Where PATH and the name are shorter together than PATH_MAX and there are at most 126 arguments, `execlp` returns
  -- RET_FAILURE if no directory of PATH but the last has the program; else the process goes on with the program, the
  -- arguments and the whole environment, or, where `execve` fails, frees a string that is not its own, unless
  -- it was called without arguments.
  pub execlp-program :
      length (path_of env_path cs_path) + length filename + 1 < path_max
      → length args < argv_size
      → execlp stat loads env_path cs_path environ filename args
        ≡ (elim (program stat (path_of env_path cs_path) filename) [
          | none ↦ ok returns
          | some path ↦
              if loads path
              then ok (executes path args environ)
              else elim args [ [] ↦ ok returns | a ∷ rest ↦ fault ]
        ])
  unfolding execlp
  execlp-program short few =
      let room : ltb (length args) argv_size ≡ true = ground arith in
      let found = program stat (path_of env_path cs_path) filename in
      elim (Option-cases found) [
        | inl missing ↦ rw (find-program stat env_path cs_path filename short, missing) refl
        | inr (path, there) ↦
            rw
              (find-program stat env_path cs_path filename short, there, room, copy_env-all environ)
              refl
      ]
