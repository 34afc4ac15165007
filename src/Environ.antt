-- ===== src/Environ.antt =====
-- `setenv` and `unsetenv` of src/imp/06-03.c, on the array `environ`.
pub mod Visible
mod Tests
use tlpiexer.Prelude.{
  ℕ, zero, suc, ◌+◌, Bool, true, false, Option, none, some, List, [], ◌∷◌, ◌++◌, ◌&&◌, not, ◌==◌,
  ltb, if◌then◌else◌, length, take, Run, ok, fault, ◌>>=◌, ℤ, fn_ok, fn_er,
}
use tlpiexer.CText.{Bytes, strcmp_eq}

-- The cells of `environ`: a string `NAME=value`, or NULL.
abbrev pub Environ : Type 0
Environ = List (Option Bytes)

-- `memcmp(s, name, strlen(name)) == 0 && s[strlen(name)] == '='`; at the end of a shorter `s` its NUL
-- differs from the byte of the name.
unfoldable pub has_name : Bytes → Bytes → Bool
has_name [] [] = false
has_name [] (c ∷ s) = c == 61
has_name (n ∷ name) [] = false
has_name (n ∷ name) (c ∷ s) = (c == n) && has_name name s

-- The library's `getenv` takes the strings that begin with the name and `=`.
abbrev pub is_of : Bytes → Bytes → Bool
is_of name s = strcmp_eq (take (suc (length name)) s) (name ++ 61 ∷ [])

-- The string of a variable, up to the NULL that ends the array.
unfoldable pub getenv : Bytes → Environ → Option Bytes
getenv name [] = none
getenv name (none ∷ env) = none
getenv name (some s ∷ env) = if is_of name s then some s else getenv name env

-- The loop of `unsetenv`, up to the NULL that ended the array before.
unfoldable pub clear : Bytes → Environ → Environ
clear name [] = []
clear name (none ∷ env) = none ∷ env
clear name (some s ∷ env) =
    let rest = clear name env in (if has_name name s then none else some s) ∷ rest

unfoldable pub unsetenv : Bytes → Environ → ℤ × Environ
unsetenv name env = elim (getenv name env) [
  | none ↦ (fn_ok, env)
  | some _ ↦ (fn_ok, clear name env)
]

-- `getenv(name) != NULL`
abbrev pub is_set : Option Bytes → Bool
is_set none = false
is_set (some s) = true

-- The bytes that `strcpy` and the two calls of `strcat` write into `malloc`'s `size` bytes.
unfoldable pub written : ℕ → Bytes → Run Bytes
written size text = if ltb (length text) size then ok text else fault

-- `memory` says whether `malloc` finds any, and `putenv` is the library's.
unfoldable pub setenv :
    Bool → (Bytes → Environ → Option Environ) → Bytes → Bytes → Bool → Environ → Run (ℤ × Environ)
setenv memory putenv name value overwrite env =
    if is_set (getenv name env) && not overwrite
    then ok (fn_ok, env)
    else if not memory
    then ok (fn_er, env)
    else (written (length name + length value + 1) (name ++ 61 ∷ value) >>= λ senv.
        elim (putenv senv env) [ none ↦ ok (fn_er, env) | some env' ↦ ok (fn_ok, env') ])
