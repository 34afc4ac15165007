-- ===== src/RealPath/Enter.antt =====
-- The rounds of `solve_dot` of src/imp/18-03.c at the slash behind a name, `.`, `..` or nothing.
use tlpiexer.Prelude.{
  ℕ, zero, suc, ◌+◌, ◌≡◌, ◌≤◌, ◌<◌, refl, sym, ap, ◌∙◌, false, some, none, Option, List, [], ◌∷◌,
  ◌++◌, length, length-append, take, get_elem?, set, append_assoc, append-nil, arith, ok, fault,
  subst,
}
use tlpiexer.CText.{Bytes}
use tlpiexer.RealPath.{slash, dot, byte_is, back, Dots, at_slash}
use tlpiexer.RealPath.Parts.{At, At-byte, NoSlash, take-elem}
use tlpiexer.RealPath.Resolve.{
  Part, name, nothing, here, up, bytes_of, IsPart, enter, joined, before, joined-ends, Ready,
  At-back, slash-nothing, slash-here, slash-name, slash-up,
}

elem-NoSlash :
    (n b : Bytes) (k : ℕ) → NoSlash n → k < length n → byte_is (get_elem? (n ++ b) k) slash ≡ false
elem-NoSlash [] b k none_there h = absurd (omega arith)
elem-NoSlash (c ∷ n) b zero (nc, ns) h = ground arith
elem-NoSlash (c ∷ n) b (suc k) (nc, ns) h = elem-NoSlash n b k ns (omega arith)

-- Back over a name to the slash in front of it.
back-name :
    (path : Bytes) (j : ℕ) (a n b : Bytes) (k : ℕ)
    → take j path ≡ a ++ slash ∷ (n ++ b)
    → NoSlash n
    → k ≤ length n
    → back (suc (length a + k)) path ≡ ok (length a)
unfolding back
back-name path j a n b zero e none_there h =
    let hit = take-elem path j a (slash ∷ (n ++ b)) 0 e (omega arith) in
    let z : length a + 0 ≡ length a = omega arith in rw (hit, z)
back-name path j a n b (suc k) e none_there h =
    let inside : suc k < length (slash ∷ (n ++ b)) = omega (arith, length-append n b) in
    let hit = take-elem path j a (slash ∷ (n ++ b)) (suc k) e inside in
    let miss = elem-NoSlash n b k none_there (omega arith) in
    let z : length a + suc k ≡ suc (length a + k) = omega arith in
    rw (hit, miss, z) (back-name path j a n b k e none_there (omega arith))

-- What a round at the slash behind a part does.
abbrev pub Enters : Dots → ℕ → Bytes → Option (List Bytes) → Type 0
Enters s i rest none = at_slash s ≡ fault
Enters s i rest (some st) =
    (t : Dots) × (at_slash s ≡ ok t) × Ready (record t { j = t.j + 1 }) (i + 1) st [] rest

module _ (s : Dots) (i : ℕ) (st : List Bytes) (rest : Bytes) where
  -- The place behind the last slash.
  stay :
      (b : Bytes)
      → Ready s i st b (slash ∷ rest)
      → Ready (record s { j = s.jy + 1 }) (i + 1) st [] rest
  stay b r = record {
    at = rw (r.jy, append-nil (joined st)) (At-back s.path i s.j (joined st) b slash rest r.at);
    jx = r.jx;
    jy = r.jy;
    names = r.names;
  }

  enter-name :
      (n : Bytes)
      → IsPart (name n)
      → Ready s i st n (slash ∷ rest)
      → Enters s i rest (some (n ∷ st))
  unfolding joined
  enter-name n (clean, long) r = (
    _,
    slash-name s i st rest n long r,
    record {
      at =
          subst (λ o. At (set s.path s.j slash) (i + 1) (s.j + 1) o rest)
            (append_assoc (joined st) n (slash ∷ []) ∙ sym (append-nil (joined (n ∷ st))))
            (At-byte s.path i s.j (joined st ++ n) slash rest r.at);
      jx = omega (arith, r.jy);
      jy = omega (
        arith,
        r.at.size,
        length-append (joined st) n,
        length-append (joined st) (n ++ slash ∷ []),
        length-append n (slash ∷ []),
      );
      names = (clean, r.names);
    },
  )

-- `..` from a directory below another.
enter-up :
    (s : Dots) (i : ℕ) (n m : Bytes) (st : List Bytes) (rest : Bytes)
    → Ready s i (n ∷ m ∷ st) (dot ∷ dot ∷ []) (slash ∷ rest)
    → Enters s i rest (some (m ∷ st))
unfolding joined
enter-up s i n m st rest r =
    let (c, ends) = joined-ends st in
    let tail : Bytes = slash ∷ (n ++ (slash ∷ (dot ∷ dot ∷ []))) in
    let out : take s.j s.path ≡ c ++ slash ∷ (m ++ tail) =
      r.at.written ∙ simp (ends, append_assoc) in
    let base = joined (m ∷ st) in
    let long : length base ≡ length c + length m + 2 = omega (
      arith,
      ap length ends,
      length-append (joined st) (m ++ slash ∷ []),
      length-append m (slash ∷ []),
      length-append c (slash ∷ []),
    ) in
    let jx : s.jx ≡ suc (length c + length m) = omega (arith, r.jx) in
    let back_there : At s.path (i + 1) (length base) base rest =
      At-back s.path i s.j base ((n ++ slash ∷ []) ++ dot ∷ dot ∷ []) slash rest (
        subst (λ o. At s.path i s.j o (slash ∷ rest))
          (append_assoc base (n ++ slash ∷ []) (dot ∷ dot ∷ [])) r.at) in
    let last : length base ≡ s.jx + 1 = omega arith in
    let found : back s.jx s.path ≡ ok (length c) =
      rw jx (back-name s.path s.j c m tail (length m) out r.names.1.0 (omega arith)) in
    (
      record s { j = s.jx; jx = length c; jy = s.jx },
      slash-up s i (n ∷ m ∷ st) rest r ∙ rw found,
      record {
        at =
            subst (λ k. At s.path (i + 1) k (base ++ []) rest) last
              (rw (append-nil base) back_there);
        jx = omega (arith, ap length ends, length-append c (slash ∷ []));
        jy = omega arith;
        names = r.names.1;
      },
    )

-- `..` from the root, or from a directory in it, reads in front of the path.
enter-top :
    (s : Dots) (i : ℕ) (st : List Bytes) (rest : Bytes)
    → before st ≡ 0
    → Ready s i st (dot ∷ dot ∷ []) (slash ∷ rest)
    → at_slash s ≡ fault
unfolding back
enter-top s i st rest e r = let jx : s.jx ≡ 0 = r.jx ∙ e in slash-up s i st rest r ∙ rw jx

pub enter-Enters :
    (p : Part) (s : Dots) (i : ℕ) (st : List Bytes) (rest : Bytes)
    → IsPart p
    → Ready s i st (bytes_of p) (slash ∷ rest)
    → Enters s i rest (enter p st)
unfolding joined
enter-Enters (name n) s i st rest is r = enter-name s i st rest n is r
enter-Enters nothing s i st rest is r = (_, slash-nothing s i st rest r, stay s i st rest [] r)
enter-Enters here s i st rest is r = (_, slash-here s i st rest r, stay s i st rest (dot ∷ []) r)
enter-Enters up s i [] rest is r = enter-top s i [] rest refl r
enter-Enters up s i (n ∷ []) rest is r = enter-top s i (n ∷ []) rest refl r
enter-Enters up s i (n ∷ m ∷ st) rest is r = enter-up s i n m st rest r
