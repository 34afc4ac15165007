-- ===== src/Attributes/Tests.antt =====
-- Modes of the program of src/imp/15-07.c on a file that has the attribute i.
use tlpiexer.Prelude.{◌≡◌, refl, true, false, [], ◌∷◌, ◌==◌, if◌then◌else◌, ok}
use tlpiexer.CText.{Bytes}
use tlpiexer.Attributes.{Attr, flag_of, pattr, change, main}
use tlpiexer.Attributes.Mode.{named, wanted, does_change, all_succeed, main-changes}

abbrev path : Bytes
path = b'f' ∷ []

abbrev u_and_a : Bytes
u_and_a = b'u' ∷ b'A' ∷ []

abbrev immutable : Attr
immutable k = k == 4

main-changes_example : main all_succeed ((b'+' ∷ u_and_a) ∷ path ∷ []) immutable ≡ (
    if does_change all_succeed b'+' u_and_a
    then ok (true, λ k. wanted b'+' (immutable k) (named u_and_a k))
    else ok (false, immutable))
main-changes_example = main-changes all_succeed b'+' u_and_a path immutable

-- A character that is not known leaves all as it was.
unknown : main all_succeed ((b'+' ∷ b'e' ∷ []) ∷ path ∷ []) immutable ≡ ok (false, immutable)
unfolding main change pattr flag_of
unknown = refl

no_path : main all_succeed ((b'+' ∷ b'u' ∷ []) ∷ []) immutable ≡ ok (false, immutable)
unfolding main
no_path = refl
