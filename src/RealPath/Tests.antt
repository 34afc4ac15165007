-- ===== src/RealPath/Tests.antt =====
-- Runs of `solve_dot` and `realpath_x` of src/imp/18-03.c.
use Prim.Native.Char.{code}
use Prim.Native.String.{String}
use tlpiexer.Prelude.{
  ◌||◌, if◌then◌else◌, ◌≡◌, refl, true, some, none, List, [], ◌∷◌, ◌++◌, arith, ok, fault,
  out_of_fuel,
}
use tlpiexer.CText.{Bytes, strcmp_eq}
use tlpiexer.RealPath.{slash, Calls, solve_dot, dot_loop, at_slash, back, realpath_x}
use tlpiexer.RealPath.Resolve.{Part, name, nothing, here, up, spell, resolve, joined}
use tlpiexer.RealPath.Whole.{solve_dot-resolve}
use tlpiexer.RealPath.Links.{no_link, to_absolute, to_relative, realpath_x-Leads, realpath_x-Circle}

-- The bytes of an ASCII text
abbrev bytes : String → Bytes
bytes String.[] = []
bytes (String.◌∷◌ c s) = code c ∷ bytes s

-- "/usr//lib/./../"
abbrev parts : List Part
parts = name (bytes "usr") ∷ nothing ∷ name (bytes "lib") ∷ here ∷ up ∷ []

solve_dot-resolve_example :
    solve_dot (slash ∷ (spell parts ++ bytes "x.c"))
    ≡ (elim (resolve parts []) [ none ↦ fault | some st ↦ ok (some (joined st ++ bytes "x.c")) ])
solve_dot-resolve_example =
    solve_dot-resolve parts (bytes "x.c")
      (
        ((omega arith, (omega arith, (omega arith, tt))), omega arith),
        (tt, (((omega arith, (omega arith, (omega arith, tt))), omega arith), (tt, (tt, tt)))),
      )
      (omega arith, (omega arith, (omega arith, tt)))

resolved : solve_dot (bytes "/usr//lib/./../x.c") ≡ ok (some (bytes "/usr/x.c"))
unfolding solve_dot dot_loop at_slash back
resolved = refl

-- The root is never reached by `..`.
above_root : solve_dot (bytes "/usr/../x.c") ≡ fault
unfolding solve_dot dot_loop at_slash back
above_root = refl

-- Names of one or two bytes are taken for no names.
short_name : solve_dot (bytes "/a/../b") ≡ ok (some (bytes "/a/../b"))
unfolding solve_dot dot_loop at_slash back
short_name = refl

short_behind_slashes : solve_dot (bytes "//a/b") ≡ ok (some (bytes "/aab"))
unfolding solve_dot dot_loop at_slash back
short_behind_slashes = refl

-- A `..` at the end stays.
last_dots : solve_dot (bytes "/usr/lib/..") ≡ ok (some (bytes "/usr/lib/.."))
unfolding solve_dot dot_loop at_slash back
last_dots = refl

-- "/tmp/l" is a link to "usr/x" beside it.
abbrev one_link : Calls
one_link = record {
  lstat = λ p. some (strcmp_eq p (bytes "/tmp/l"));
  readlink = λ p. some (bytes "usr/x");
  dirname = λ p. bytes "/tmp";
  getcwd = none;
}

-- "/l" is a link to "/tmp/l", which is the link above.
abbrev two_links : Calls
two_links = record one_link {
  lstat = λ p. some (strcmp_eq p (bytes "/tmp/l") || strcmp_eq p (bytes "/l"));
  readlink = λ p. some (if strcmp_eq p (bytes "/l") then bytes "/tmp/l" else bytes "usr/x");
}

realpath_x-Leads_example : realpath_x 3 two_links (bytes "/l") ≡ ok (some (bytes "/tmp/usr/x"))
unfolding spell resolve joined strcmp_eq
realpath_x-Leads_example =
    realpath_x-Leads 3 two_links (bytes "/l") (name (bytes "tmp") ∷ name (bytes "usr") ∷ [])
      (bytes "x") (bytes "usr" ∷ bytes "tmp" ∷ []) refl
      (to_absolute (bytes "tmp/l") refl refl
        (to_relative (bytes "usr/x") refl refl (λ e. omega arith) (no_link refl)))
      (omega arith)
      (
        ((omega arith, (omega arith, (omega arith, tt))), omega arith),
        (((omega arith, (omega arith, (omega arith, tt))), omega arith), tt),
      )
      (omega arith, tt) refl

-- A link to itself.
abbrev itself : Calls
itself = record one_link { lstat = λ p. some true; readlink = λ p. some (bytes "/tmp/l") }

realpath_x-Circle_example : realpath_x 100 itself (bytes "/tmp/l") ≡ out_of_fuel
realpath_x-Circle_example =
    realpath_x-Circle 100 itself (λ p. p ≡ bytes "/tmp/l") (bytes "/tmp/l") refl
      (λ path e. (bytes "/tmp/l", refl, refl, refl)) refl
