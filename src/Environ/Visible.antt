-- ===== src/Environ/Visible.antt =====
-- What `setenv` and `unsetenv` of src/imp/06-03.c leave in the environment.
use tlpiexer.Prelude.{
  ◌+◌, ◌≡◌, refl, ap, Bool, false, Option, none, some, List, [], ◌∷◌, ◌++◌, ◌&&◌, not, ltb,
  if◌then◌else◌, length, length-append, arith, ok, fault, fn_ok, fn_er, Bool-cases, Option-cases,
  inl, inr,
}
use tlpiexer.CText.{Bytes, strcmp_eq}
use tlpiexer.Environ.{Environ, has_name, is_of, getenv, clear, unsetenv, written, is_set, setenv}

-- The variables that a program sees: the strings before the first NULL.
unfoldable pub visible : Environ → List Bytes
visible [] = []
visible (none ∷ env) = []
visible (some s ∷ env) = s ∷ visible env

-- The strings before the first that begins with the name and `=`.
unfoldable pub before : Bytes → List Bytes → List Bytes
before name [] = []
before name (s ∷ strings) = if is_of name s then [] else s ∷ before name strings

-- The test of `unsetenv` finds the strings that begin with the name and `=`.
has_name-is_of : (name s : Bytes) → has_name name s ≡ is_of name s
unfolding has_name strcmp_eq
has_name-is_of [] [] = refl
has_name-is_of [] (c ∷ s) = ground arith
has_name-is_of (n ∷ name) [] = refl
has_name-is_of (n ∷ name) (c ∷ s) = let rest = has_name-is_of name s in ground arith

clear-before : (name : Bytes) (env : Environ) → visible (clear name env) ≡ before name (visible env)
unfolding clear visible before
clear-before name [] = refl
clear-before name (none ∷ env) = refl
clear-before name (some s ∷ env) = elim (Bool-cases (is_of name s)) [
  | inl hit ↦ rw (has_name-is_of name s, hit)
  | inr miss ↦ rw (has_name-is_of name s, miss) (ap (λ l. s ∷ l) (clear-before name env))
]

getenv-before :
    (name : Bytes) (env : Environ)
    → getenv name env ≡ none
    → visible env ≡ before name (visible env)
unfolding getenv visible before
getenv-before name [] h = refl
getenv-before name (none ∷ env) h = refl
getenv-before name (some s ∷ env) h = elim (Bool-cases (is_of name s)) [
  | inl hit ↦ ground arith
  | inr miss ↦ rw miss (ap (λ l. s ∷ l) (getenv-before name env (ground arith)))
]

clear-getenv : (name : Bytes) (env : Environ) → getenv name (clear name env) ≡ none
unfolding clear getenv
clear-getenv name [] = refl
clear-getenv name (none ∷ env) = refl
clear-getenv name (some s ∷ env) = elim (Bool-cases (is_of name s)) [
  | inl hit ↦ rw (has_name-is_of name s, hit)
  | inr miss ↦ rw (has_name-is_of name s, miss, miss) (clear-getenv name env)
]

-- `unsetenv` succeeds, and what a program sees afterwards are the variables before the first of that
-- name: it has no variable of the name left, and loses every variable that stood behind the first.
pub unsetenv-before :
    (name : Bytes) (env : Environ)
    → ((unsetenv name env).0 ≡ fn_ok)
      × (visible (unsetenv name env).1 ≡ before name (visible env))
      × (getenv name (unsetenv name env).1 ≡ none)
unfolding unsetenv
unsetenv-before name env = elim (Option-cases (getenv name env)) [
  | inl gone ↦ rw (unsetenv, gone) (refl, getenv-before name env gone, gone)
  | inr (s, there) ↦ rw (unsetenv, there) (refl, clear-before name env, clear-getenv name env)
]

-- `setenv` returns 0 if the variable is there and is not to be overwritten, and -1 without
-- memory; in every other case it writes one byte more than it has allocated.
pub setenv-overruns :
    (memory : Bool) (putenv : Bytes → Environ → Option Environ) (name value : Bytes)
    (overwrite : Bool) (env : Environ)
    → setenv memory putenv name value overwrite env ≡ (
        if is_set (getenv name env) && not overwrite
        then ok (fn_ok, env)
        else if memory
        then fault
        else ok (fn_er, env))
unfolding setenv written
setenv-overruns memory putenv name value overwrite env =
    let over : ltb (length (name ++ 61 ∷ value)) (length name + length value + 1) ≡ false =
      ground (arith, length-append name (61 ∷ value)) in
    elim (Bool-cases (is_set (getenv name env) && not overwrite)) [
      | inl set ↦ rw set
      | inr write ↦ elim (Bool-cases memory) [
        | inl there ↦ rw (write, there, over)
        | inr gone ↦ rw (write, gone)
      ]
    ]
