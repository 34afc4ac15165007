-- ===== src/Environ/Tests.antt =====
-- Runs of `setenv` and `unsetenv` of src/imp/06-03.c.
use tlpiexer.Prelude.{◌≡◌, refl, Option, none, some, [], ◌∷◌, fn_ok}
use tlpiexer.CText.{Bytes, strcmp_eq}
use tlpiexer.Environ.{Environ, has_name, getenv, clear, unsetenv}
use tlpiexer.Environ.Visible.{visible, before, unsetenv-before}

abbrev name_a : Bytes
name_a = 97 ∷ []

-- `a=1`, `b=2`
abbrev a_is_1 : Bytes
a_is_1 = 97 ∷ 61 ∷ 49 ∷ []

abbrev b_is_2 : Bytes
b_is_2 = 98 ∷ 61 ∷ 50 ∷ []

abbrev environ : Environ
environ = some a_is_1 ∷ some b_is_2 ∷ none ∷ []

unsetenv-before_example :
    ((unsetenv name_a environ).0 ≡ fn_ok)
    × (visible (unsetenv name_a environ).1 ≡ before name_a (visible environ))
    × (getenv name_a (unsetenv name_a environ).1 ≡ none)
unsetenv-before_example = unsetenv-before name_a environ

-- The variable `b` is lost with `a`.
b_lost : visible (unsetenv name_a environ).1 ≡ []
unfolding visible unsetenv getenv clear has_name strcmp_eq
b_lost = refl

abbrev append : Bytes → Environ → Option Environ
append s env = some (some s ∷ env)
