-- ===== src/RealPath/Whole.antt =====
-- `solve_dot` of src/imp/18-03.c on paths of names, `.`, `..` and doubled slashes.
use tlpiexer.Prelude.{
  ℕ, suc, ◌+◌, ◌≡◌, refl, ap, ◌∙◌, some, none, Option, List, [], ◌∷◌, ◌++◌, length, length-append,
  take, drop, drop-Shows, append_assoc, append-nil, arith, ok, fault, ◌>>=◌, subst,
}
use tlpiexer.CText.{Bytes}
use tlpiexer.RealPath.{slash, Dots, at_slash, dot_loop, solve_dot}
use tlpiexer.RealPath.Parts.{At, NoSlash, dot_loop-copy}
use tlpiexer.RealPath.Resolve.{
  Part, name, nothing, here, up, bytes_of, IsPart, AllParts, spell, enter, resolve, joined, Ready,
}
use tlpiexer.RealPath.Enter.{Enters, enter-Enters}

part-NoSlash : (p : Part) → IsPart p → NoSlash (bytes_of p)
part-NoSlash (name n) is = is.0
part-NoSlash nothing is = tt
part-NoSlash here is = (omega arith, tt)
part-NoSlash up is = (omega arith, (omega arith, tt))

-- How the loop ends.
abbrev Ends : ℕ → ℕ → Dots → Bytes → Option (List Bytes) → Type 0
Ends left i s last none = dot_loop left i s ≡ fault
Ends left i s last (some st) =
    (t : Dots) × (dot_loop left i s ≡ ok t) × (take t.j t.path ≡ joined st ++ last)

Ends-cong :
    (left left' i i' : ℕ) (s s' : Dots) (last : Bytes) (o : Option (List Bytes))
    → dot_loop left i s ≡ dot_loop left' i' s'
    → Ends left' i' s' last o
    → Ends left i s last o
Ends-cong left left' i i' s s' last none e h = e ∙ h
Ends-cong left left' i i' s s' last (some st) e (t, h, w) = (t, e ∙ h, w)

dot_loop-slash :
    (k i : ℕ) (s : Dots) (rest : Bytes)
    → drop i s.path ≡ slash ∷ rest
    → dot_loop (suc k) i s ≡ (at_slash s >>= λ t. dot_loop k (i + 1) (record t { j = t.j + 1 }))
unfolding dot_loop
dot_loop-slash k i s rest e = rw (dot_loop, (drop-Shows s.path i slash rest e).elem)

-- From the round behind a part to the end, by what the parts behind it do.
after_part :
    (k i : ℕ) (s : Dots) (ps : List Part) (rest last : Bytes) (o : Option (List Bytes))
    → drop i s.path ≡ slash ∷ rest
    → Enters s i rest o
    → ((st : List Bytes) (t : Dots)
        → Ready t (i + 1) st [] rest
        → Ends k (i + 1) t last (resolve ps st))
    → Ends (suc k) i s last (elim o [ none ↦ none | some st ↦ resolve ps st ])
after_part k i s ps rest last none e stops next = dot_loop-slash k i s rest e ∙ rw stops
after_part k i s ps rest last (some st) e (t, goes, r) next =
    let t' : Dots = record t { j = t.j + 1 } in
    Ends-cong (suc k) k i (i + 1) s t' last (resolve ps st) (dot_loop-slash k i s rest e ∙ rw goes)
      (next st t' r)

dot_loop-Ends :
    (ps : List Part) (left i : ℕ) (s : Dots) (st : List Bytes) (last : Bytes)
    → AllParts ps
    → NoSlash last
    → left ≡ length (spell ps) + length last
    → Ready s i st [] (spell ps ++ last)
    → Ends left i s last (resolve ps st)
unfolding spell resolve dot_loop
dot_loop-Ends [] left i s st last is clean e r =
    let (path, same, a) =
      dot_loop-copy last left 0 i s.j s.jx s.jy s.path (joined st ++ []) [] clean (omega arith)
        (rw (append-nil last) r.at) in
    (_, same, a.written ∙ ap (λ o. o ++ last) (append-nil (joined st)))
dot_loop-Ends (p ∷ ps) left i s st last (is, all) clean e r =
    let b = bytes_of p in
    let rest : Bytes = spell ps ++ last in
    let k : ℕ = length (spell ps) + length last in
    let a =
      subst (At s.path i s.j (joined st ++ [])) (append_assoc b (slash ∷ spell ps) last) r.at in
    let (path, same, a') =
      dot_loop-copy b left (suc k) i s.j s.jx s.jy s.path (joined st ++ []) (slash ∷ rest)
        (part-NoSlash p is) (omega (arith, length-append b (slash ∷ spell ps))) a in
    let s' : Dots = record { path = path; j = s.j + length b; jx = s.jx; jy = s.jy } in
    let r' : Ready s' (i + length b) st b (slash ∷ rest) = record {
      at = rw (← append-nil (joined st)) a';
      jx = r.jx;
      jy = r.jy;
      names = r.names;
    } in
    Ends-cong left (suc k) i (i + length b) s s' last _ same (
      after_part k (i + length b) s' ps rest last (enter p st) r'.at.left
        (enter-Enters p s' (i + length b) st rest is r')
        (λ st' t ready. dot_loop-Ends ps k (i + length b + 1) t st' last all clean refl ready))

-- On an absolute path of names of three bytes and more, `.`, `..` and doubled slashes, each with a slash
-- behind it, and a last part without one, `solve_dot` gives the path of the directory that they lead to and
-- the last part as it is; where a `..` leads to the root or above it, it reads in front of the path.
pub solve_dot-resolve :
    (ps : List Part) (last : Bytes)
    → AllParts ps
    → NoSlash last
    → solve_dot (slash ∷ (spell ps ++ last))
      ≡ (elim (resolve ps []) [ none ↦ fault | some st ↦ ok (some (joined st ++ last)) ])
unfolding solve_dot joined dot_loop at_slash
solve_dot-resolve ps last all clean =
    let path : Bytes = slash ∷ (spell ps ++ last) in
    let s : Dots = record { path = path; j = 0; jx = 0; jy = 0 } in
    let first : Dots = record { path = path; j = 1; jx = 0; jy = 0 } in
    let r : Ready first 1 [] [] (spell ps ++ last) = record {
      at = record { written = refl; left = refl; near = omega arith; size = refl };
      jx = refl;
      jy = refl;
      names = tt;
    } in
    let k : ℕ = length (spell ps ++ last) in
    let start : dot_loop (suc k) 0 s ≡ dot_loop k 1 first = dot_loop-slash k 0 s _ refl in
    concluded path (resolve ps []) (
      Ends-cong (suc k) k 0 1 s first last (resolve ps []) start
        (dot_loop-Ends ps k 1 first [] last all clean (length-append (spell ps) last) r))
  where
    concluded :
        (path : Bytes) (o : Option (List Bytes))
        → Ends (length path) 0 (record { path = path; j = 0; jx = 0; jy = 0 }) last o
        → (dot_loop (length path) 0 (record { path = path; j = 0; jx = 0; jy = 0 }) >>= λ s.
            ok (some (take s.j s.path)))
          ≡ (elim o [ none ↦ fault | some st ↦ ok (some (joined st ++ last)) ])
    concluded path none e = rw e
    concluded path (some st) (t, e, w) = rw (e, w)
