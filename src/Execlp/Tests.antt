-- ===== src/Execlp/Tests.antt =====
-- Calls of `execlp` of src/imp/27-02.c with two directories in PATH.
use tlpiexer.Prelude.{
  ℕ, ◌≡◌, refl, Bool, true, false, Option, none, some, List, [], ◌∷◌, if◌then◌else◌, arith, ok,
  fault,
}
use tlpiexer.CText.{Bytes, strcmp_eq}
use tlpiexer.Execlp.{search, find, copy_env, returns, executes, execlp}
use tlpiexer.Execlp.Whole.{program, execlp-program}

abbrev ls : Bytes
ls = b'l' ∷ b's' ∷ []

-- "b:d:"
abbrev two_directories : Bytes
two_directories = b'b' ∷ b':' ∷ b'd' ∷ b':' ∷ []

-- "d/ls"
abbrev d_ls : Bytes
d_ls = b'd' ∷ b'/' ∷ ls

-- b/ls is no program, d/ls is one.
abbrev stat : Bytes → Option ℕ
stat path = if strcmp_eq path d_ls then some 493 else some 420

abbrev loads : Bytes → Bool
loads path = true

abbrev environment : List Bytes
environment = (b'A' ∷ b'=' ∷ []) ∷ (b'B' ∷ b'=' ∷ []) ∷ []

executes_ls :
    execlp stat loads (some two_directories) [] environment ls (ls ∷ [])
    ≡ ok (executes d_ls (ls ∷ []) environment)
unfolding execlp find search copy_env strcmp_eq
executes_ls = refl

-- With no colon behind it the directory d is not tried.
misses_last :
    execlp stat loads (some (b'b' ∷ b':' ∷ b'd' ∷ [])) [] environment ls (ls ∷ []) ≡ ok returns
unfolding execlp find search copy_env strcmp_eq
misses_last = refl

-- Where `execve` fails the strings of the caller are freed.
frees_strings :
    execlp stat (λ path. false) (some two_directories) [] environment ls (ls ∷ []) ≡ fault
unfolding execlp find search copy_env strcmp_eq
frees_strings = refl

execlp-program_example :
    execlp stat loads (some two_directories) [] environment ls (ls ∷ [])
    ≡ (elim (program stat two_directories ls) [
      | none ↦ ok returns
      | some path ↦ if loads path then ok (executes path (ls ∷ []) environment) else ok returns
    ])
execlp-program_example =
    execlp-program stat loads (some two_directories) [] environment ls (ls ∷ []) (omega arith)
      (omega arith)
