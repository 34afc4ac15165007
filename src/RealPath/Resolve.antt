-- ===== src/RealPath/Resolve.antt =====
-- Paths of names, `.`, `..` and doubled slashes, as `solve_dot` of src/imp/18-03.c resolves them.
use tlpiexer.Prelude.{
  ℕ, ◌+◌, ◌-◌, ◌≡◌, ◌≤◌, ◌<◌, refl, sym, ap, ◌∙◌, true, false, some, none, Option, List, [], ◌∷◌,
  ◌++◌, ◌==◌, length, length-append, set, drop-Shows, append_assoc, arith, ok, ◌>>=◌,
}
use tlpiexer.CText.{Bytes}
use tlpiexer.RealPath.{slash, dot, byte_is, is_at, back, Dots, at_slash}
use tlpiexer.RealPath.Parts.{At, NoSlash, take-elem, take-front}

-- What stands between two slashes. A name has three bytes at least, a shorter one is taken for none.
pub data Part : Type 0 where
  name : Bytes → Part
  nothing : Part
  here : Part
  up : Part

abbrev pub bytes_of : Part → Bytes
bytes_of (name n) = n
bytes_of nothing = []
bytes_of here = dot ∷ []
bytes_of up = dot ∷ dot ∷ []

abbrev pub IsPart : Part → Type 0
IsPart (name n) = NoSlash n × (3 ≤ length n)
IsPart other = Unit {0}

abbrev pub AllParts : List Part → Type 0
AllParts [] = Unit {0}
AllParts (p ∷ ps) = IsPart p × AllParts ps

-- Each part with the slash behind it.
unfoldable pub spell : List Part → Bytes
spell [] = []
spell (p ∷ ps) = bytes_of p ++ slash ∷ spell ps

-- The directory that the parts lead to from another, each as its names, the last first; `none` where `..`
-- leads to the root or above it.
abbrev pub enter : Part → List Bytes → Option (List Bytes)
enter (name n) st = some (n ∷ st)
enter nothing st = some st
enter here st = some st
enter up [] = none
enter up (n ∷ []) = none
enter up (n ∷ m ∷ st) = some (m ∷ st)

unfoldable pub resolve : List Part → List Bytes → Option (List Bytes)
resolve [] st = some st
resolve (p ∷ ps) st = elim (enter p st) [ none ↦ none | some st' ↦ resolve ps st' ]

-- The path of a directory, with a slash behind it.
unfoldable pub joined : List Bytes → Bytes
joined [] = slash ∷ []
joined (n ∷ st) = joined st ++ (n ++ slash ∷ [])

abbrev pub Names : List Bytes → Type 0
Names [] = Unit {0}
Names (n ∷ st) = NoSlash n × Names st

-- The index of the last slash but one, 0 in the root.
abbrev pub before : List Bytes → ℕ
before [] = 0
before (n ∷ st) = length (joined st) - 1

pub joined-ends : (st : List Bytes) → (b : Bytes) × (joined st ≡ b ++ slash ∷ [])
unfolding joined
joined-ends [] = ([], refl)
joined-ends (n ∷ st) = (joined st ++ n, sym (append_assoc (joined st) n (slash ∷ [])))

pub length-joined : (st : List Bytes) → 0 < length (joined st)
length-joined st =
    let (b, e) = joined-ends st in omega (arith, ap length e, length-append b (slash ∷ []))

-- The loop behind the slash of a directory, and the bytes `s` that it has copied since.
pub record Ready (s : Dots) (i : ℕ) (st : List Bytes) (copied rest : Bytes) : Type 0 where
  pub at : At s.path i s.j (joined st ++ copied) rest
  pub jx : s.jx ≡ before st
  pub jy : s.jy + 1 ≡ length (joined st)
  pub names : Names st

-- Back to an earlier place in what is written, past a byte that is read.
pub At-back :
    (path : Bytes) (i j : ℕ) (a b : Bytes) (c : ℕ) (rest : Bytes)
    → At path i j (a ++ b) (c ∷ rest)
    → At path (i + 1) (length a) a rest
At-back path i j a b c rest h = record {
  written = take-front path j a b h.written;
  left = (drop-Shows path i c rest h.left).next;
  near = omega (arith, h.size, h.near, length-append a b);
  size = refl;
}

-- A byte that was copied.
pub is_at-copied :
    (path : Bytes) (i j : ℕ) (a b : Bytes) (k : ℕ) (rest : Bytes) (c : ℕ) {m : ℕ}
    → At path i j (a ++ b) rest
    → k < length b
    → m ≡ length a + k
    → is_at path m c ≡ is_at b k c
is_at-copied path i j a b k rest c h inside e =
    ap (λ m. is_at path m c) e ∙ ap (λ o. byte_is o c) (take-elem path j a b k h.written inside)

module _ (s : Dots) (i : ℕ) (st : List Bytes) (rest : Bytes) where
  pub slash-nothing : Ready s i st [] (slash ∷ rest) → at_slash s ≡ ok (record s { j = s.jy })
  unfolding at_slash
  slash-nothing r =
      let e : s.j - s.jy ≡ 1 = omega (arith, r.jy, r.at.size, length-append (joined st) []) in
      rw (at_slash, e)

  pub slash-here : Ready s i st (dot ∷ []) (slash ∷ rest) → at_slash s ≡ ok (record s { j = s.jy })
  unfolding at_slash
  slash-here r =
      let e : s.j - s.jy ≡ 2 =
        omega (arith, r.jy, r.at.size, length-append (joined st) (dot ∷ [])) in
      let d : is_at s.path (s.jy + 1) dot ≡ true =
        is_at-copied s.path i s.j (joined st) (dot ∷ []) 0 (slash ∷ rest) dot r.at (omega arith)
          (omega (arith, r.jy)) in
      rw (at_slash, e, d)

  pub slash-name :
      (n : Bytes)
      → 3 ≤ length n
      → Ready s i st n (slash ∷ rest)
      → at_slash s ≡ ok (record { path = set s.path s.j slash; j = s.j; jx = s.jy; jy = s.j })
  unfolding at_slash
  slash-name n long r =
      let e : s.j - s.jy ≡ length n + 1 =
        omega (arith, r.jy, r.at.size, length-append (joined st) n) in
      let three : (s.j - s.jy == 3) ≡ false = ground arith in
      let two : (s.j - s.jy == 2) ≡ false = ground arith in
      let one : (s.j - s.jy == 1) ≡ false = ground arith in rw (at_slash, three, two, one)

  pub slash-up :
      Ready s i st (dot ∷ dot ∷ []) (slash ∷ rest)
      → at_slash s ≡ (back s.jx s.path >>= λ jx. ok (record s { j = s.jx; jx = jx; jy = s.jx }))
  unfolding at_slash
  slash-up r =
      let dots : Bytes = dot ∷ dot ∷ [] in
      let e : s.j - s.jy ≡ 3 = omega (arith, r.jy, r.at.size, length-append (joined st) dots) in
      let d1 : is_at s.path (s.jy + 1) dot ≡ true =
        is_at-copied s.path i s.j (joined st) dots 0 (slash ∷ rest) dot r.at (omega arith)
          (omega (arith, r.jy)) in
      let d2 : is_at s.path (s.jy + 2) dot ≡ true =
        is_at-copied s.path i s.j (joined st) dots 1 (slash ∷ rest) dot r.at (omega arith)
          (omega (arith, r.jy)) in
      rw (at_slash, e, d1, d2)
