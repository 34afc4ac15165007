-- ===== src/OpenFiles/Tests.antt =====
-- The program of src/imp/12-03.c on two processes, of which the first has the file open.
use tlpiexer.Prelude.{
  inr, none, List, ℕ, zero, suc, ap, subst, length, ◌≡◌, ◌<◌, refl, true, some, [], ◌∷◌, ◌++◌,
  arith, Returns,
}
use tlpiexer.CText.{Bytes, c_str, strcmp_eq}
use tlpiexer.Status.{name_tag, isnumber}
use tlpiexer.OpenFiles.{Entry, Subdir, Walk, main_loop}
use tlpiexer.OpenFiles.Shown.{Status, AllGood, lines_for, main_loop-lines}

abbrev path : Bytes
path = b'/' ∷ b'f' ∷ []

abbrev sh : Bytes
sh = b's' ∷ b'h' ∷ []

abbrev entry : Bytes → Entry
entry l = record { is_lnk = true; link = some l }

abbrev subdir : ℕ → Bytes → Subdir
subdir digit link = record {
  d_name = digit ∷ [];
  fds = some (entry link ∷ []);
  status = some (some (name_tag ++ 9 ∷ sh ++ 10 ∷ []));
}

abbrev holder : Subdir
holder = subdir b'7' path

abbrev other : Subdir
other = subdir b'8' (b'/' ∷ [])

-- An array of so many zeros
unfoldable zeros : ℕ → Bytes
zeros zero = []
zeros (suc n) = 0 ∷ zeros n

length-zeros : (n : ℕ) → length (zeros n) ≡ n
unfolding zeros
length-zeros zero = refl
length-zeros (suc n) = ap suc (length-zeros n)

abbrev before : Walk
before = record { contents = []; pname = zeros 128; shown = [] }

short_link : (l link : Bytes) → some link ≡ some l → length link < 4096 → length l < 4096
short_link l link e h = let same : link ≡ l = cc in subst (λ x. length x < 4096) same h

sh-Status : (digit : ℕ) (link : Bytes) → Status 1 (subdir digit link) sh
unfolding c_str
sh-Status digit link = record {
  rest = [];
  given = refl;
  line = ((λ e. omega arith), ((λ e. omega arith), tt));
  short = omega arith;
  ends = λ tail. refl;
}

-- "." and a file of /proc have no status file that is asked for.
abbrev no_process : Subdir
no_process = record { d_name = b'.' ∷ []; fds = none; status = none }

abbrev all : List Subdir
all = no_process ∷ holder ∷ other ∷ []

all-AllGood : AllGood path (λ p. sh) 1 all
unfolding isnumber strcmp_eq
all-AllGood = (
  (λ h. cc),
  (
    (λ h. (((λ l e. short_link l path e (omega arith)), tt), (λ has. inr (sh-Status b'7' path)))),
    ((λ h. (((λ l e. short_link l (b'/' ∷ []) e (omega arith)), tt), (λ has. cc))), tt),
  ),
)

main_loop-lines_example :
    Returns (λ w'. w'.shown ≡ [] ++ lines_for path (λ p. sh) all) (main_loop 1 path all before)
main_loop-lines_example =
    main_loop-lines path (λ p. sh) 1 all before (omega arith) all-AllGood (length-zeros 128)

shows_holder : lines_for path (λ p. sh) all ≡ (sh, b'7' ∷ []) ∷ []
unfolding isnumber strcmp_eq
shows_holder = refl
