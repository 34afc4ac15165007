-- ===== src/OpenFiles/Shown.antt =====
-- Which processes the program of src/imp/12-03.c shows.
use tlpiexer.Prelude.{
  ℕ, ◌+◌, ◌≡◌, ◌≢◌, ◌<◌, refl, sym, ap, ◌∙◌, subst, Bool, true, false, ◌&&◌, ◌||◌, Option, none,
  some, List, [], ◌∷◌, ◌++◌, if◌then◌else◌, append_assoc, append-nil, length, length-append, drop,
  arith, lt→ltb, ok, Bool-cases, Option-cases, length-drop, inl, inr, ◌⊎◌, Returns, Returns-bind,
  Returns-map,
}
use tlpiexer.CText.{Bytes, text, c_str, strcmp_eq, NoNewline}
use tlpiexer.Status.{name_tag, isnumber}
use tlpiexer.Status.Lines.{Tagged, find_tag-Tagged}
use tlpiexer.Status.Names.{name_tag-NoNewline, skip_space-tab, to_newline-line}
use tlpiexer.OpenFiles.{
  path_max, pname_max, Entry, Found, open_there, not_there, failure, fd_loop, fdfproc, put_name,
  pnamefstatus, Subdir, Walk, show, show_if, visit, main_loop,
}

-- Every link that is read fits its array.
abbrev pub Readable : List Entry → Type 0
Readable [] = Unit {0}
Readable (e ∷ es) = ((l : Bytes) → e.link ≡ some l → length l < path_max) × Readable es

-- Whether an entry is a link to the path before any link that cannot be read
abbrev pub holds : List Entry → Bytes → Bool
holds [] path = false
holds (e ∷ es) path = elim e.is_lnk [
  | false ↦ holds es path
  | true ↦ elim e.link [ none ↦ false | some l ↦ strcmp_eq l path || holds es path ]
]

abbrev pub has_open : Option (List Entry) → Bytes → Bool
has_open none path = false
has_open (some es) path = holds es path

-- A status file whose first line has the name, which fits its array and has no NUL, as `read` gives it
pub record Status (fuel : ℕ) (p : Subdir) (name : Bytes) : Type 0 where
  pub rest : Bytes
  pub given : p.status ≡ some (some (name_tag ++ 9 ∷ name ++ 10 ∷ rest))
  pub line : NoNewline name
  pub short : length name < pname_max
  pub ends : (tail : Bytes) → c_str pname_max (name ++ 0 ∷ tail) ≡ name

abbrev pub AllReadable : Option (List Entry) → Type 0
AllReadable none = Unit {0}
AllReadable (some es) = Readable es

fd_loop-holds :
    (es : List Entry) (path : Bytes)
    → Readable es
    → Returns
        (λ f. (holds es path ≡ true → f ≡ open_there) × (holds es path ≡ false → f ≢ open_there))
        (fd_loop es path)
unfolding fd_loop
fd_loop-holds [] path fits = (λ h. cc, λ h e. cc)
fd_loop-holds (e ∷ es) path (fit, fits) = elim (Bool-cases e.is_lnk) [
  | inr other ↦ rw (fd_loop, holds, other) (fd_loop-holds es path fits)
  | inl lnk ↦ elim (Option-cases e.link) [
    | inl unread ↦ rw (fd_loop, holds, lnk, unread) (λ h. cc, λ h e. cc)
    | inr (l, is) ↦
        let room = lt→ltb (length l) path_max (fit l is) in
        elim (Bool-cases (strcmp_eq l path)) [
          | inl same ↦ rw (fd_loop, holds, lnk, is, room, same) (λ h. refl, λ h. cc)
          | inr differs ↦ rw (fd_loop, holds, lnk, is, room, differs) (fd_loop-holds es path fits)
        ]
  ]
]

fdfproc-open :
    (fds : Option (List Entry)) (path : Bytes)
    → AllReadable fds
    → Returns
        (λ f.
          (has_open fds path ≡ true → f ≡ open_there)
          × (has_open fds path ≡ false → f ≢ open_there))
        (fdfproc fds path)
unfolding fdfproc
fdfproc-open none path fits = (λ h. cc, λ h e. cc)
fdfproc-open (some es) path fits = fd_loop-holds es path fits

pnamefstatus-name :
    (fuel size : ℕ) (file name rest pname : Bytes)
    → Tagged name_tag file size fuel (9 ∷ name ++ 10 ∷ rest)
    → NoNewline name
    → length name < length pname
    → pnamefstatus fuel file size pname ≡ ok (0, name ++ 0 ∷ drop (length name + 1) pname)
unfolding pnamefstatus put_name
pnamefstatus-name fuel size file name rest pname t n room = rw (
  find_tag-Tagged name_tag file size fuel (9 ∷ name ++ 10 ∷ rest) name_tag-NoNewline t,
  skip_space-tab (name ++ 10 ∷ rest),
  to_newline-line name rest n,
  lt→ltb (length name) (length pname) room,
)

-- The lines that are shown behind those of `w`
abbrev Adds : Walk → List (Bytes × Bytes) → Walk → Type 0
Adds w lines w' = (length w'.pname ≡ pname_max) × (w'.shown ≡ w.shown ++ lines)

module _ (path : Bytes) (name_of : Subdir → Bytes) where
  -- Where the status file does not open nothing is shown.
  abbrev named_line : Option (Option Bytes) → Subdir → List (Bytes × Bytes)
  named_line none p = []
  named_line (some read) p = (name_of p, p.d_name) ∷ []

  abbrev pub line_of : Subdir → List (Bytes × Bytes)
  line_of p = if isnumber p.d_name && has_open p.fds path then named_line p.status p else []

  abbrev pub lines_for : List Subdir → List (Bytes × Bytes)
  lines_for [] = []
  lines_for (p ∷ ps) = line_of p ++ lines_for ps

  show-line :
      (fuel : ℕ) (p : Subdir) (w : Walk)
      → 0 < fuel
      → Status fuel p (name_of p)
      → length w.pname ≡ pname_max
      → Returns (Adds w ((name_of p, p.d_name) ∷ [])) (show fuel p p.status w)
  unfolding show text
  show-line fuel p w some_fuel s sized =
      let name : Bytes = name_of p in
      let file : Bytes = name_tag ++ 9 ∷ name ++ 10 ∷ s.rest in
      let stale : Bytes = drop (length file) w.contents in
      let tagged : Tagged name_tag (file ++ stale) (length file) fuel
          (9 ∷ name ++ 10 ∷ (s.rest ++ stale)) =
        record {
          lines = [];
          others = tt;
          shape = ap (λ l. name_tag ++ 9 ∷ l) (append_assoc name (10 ∷ s.rest) stale);
          inside = omega arith;
          enough = omega arith;
        } in
      let put =
        pnamefstatus-name fuel (length file) (file ++ stale) name (s.rest ++ stale) w.pname tagged
          s.line (omega (arith, s.short)) in
      let sized' : length (name ++ 0 ∷ drop (length name + 1) w.pname) ≡ pname_max = omega (
        arith,
        length-append name (0 ∷ drop (length name + 1) w.pname),
        length-drop (length name + 1) w.pname,
        s.short,
      ) in
      subst (λ st. Returns (Adds w ((name_of p, p.d_name) ∷ [])) (show fuel p st w)) (sym s.given)
        (rw put (sized', ap (λ n. w.shown ++ (n, p.d_name) ∷ []) (s.ends _)))

  show-named :
      (fuel : ℕ) (p : Subdir) (w : Walk)
      → 0 < fuel
      → (p.status ≡ none) ⊎ Status fuel p (name_of p)
      → length w.pname ≡ pname_max
      → Returns (Adds w (named_line p.status p)) (show fuel p p.status w)
  unfolding show
  show-named fuel p w some_fuel (inl closed) sized =
      subst (λ st. Returns (Adds w (named_line st p)) (show fuel p st w)) (sym closed)
        (sized, sym (append-nil w.shown))
  show-named fuel p w some_fuel (inr s) sized =
      let there : named_line p.status p ≡ (name_of p, p.d_name) ∷ [] =
        ap (λ st. named_line st p) s.given in
      subst (λ lines. Returns (Adds w lines) (show fuel p p.status w)) (sym there)
        (show-line fuel p w some_fuel s sized)

  -- What is asked of a directory of digits, and more if its process has the path open
  abbrev pub Good : ℕ → Subdir → Type 0
  Good fuel p =
      isnumber p.d_name ≡ true
      → AllReadable p.fds
        × (has_open p.fds path ≡ true → (p.status ≡ none) ⊎ Status fuel p (name_of p))

  abbrev pub AllGood : ℕ → List Subdir → Type 0
  AllGood fuel [] = Unit {0}
  AllGood fuel (p ∷ ps) = Good fuel p × AllGood fuel ps

  passed_over :
      (fuel : ℕ) (p : Subdir) (w : Walk) (f : Found) → f ≢ open_there → show_if f fuel p w ≡ ok w
  passed_over fuel p w open_there h = absurd (h refl)
  passed_over fuel p w not_there h = refl
  passed_over fuel p w failure h = refl

  visit-line :
      (fuel : ℕ) (p : Subdir) (w : Walk)
      → 0 < fuel
      → Good fuel p
      → length w.pname ≡ pname_max
      → Returns (Adds w (line_of p)) (visit fuel path p w)
  unfolding visit
  visit-line fuel p w some_fuel good sized = elim (Bool-cases (isnumber p.d_name)) [
    | inr name ↦ rw (visit, name) (sized, sym (append-nil w.shown))
    | inl number ↦
        let (fits, status) = good number in
        elim (Bool-cases (has_open p.fds path)) [
          | inl has ↦
              rw (visit, number, has)
                (Returns-bind _ _ (fdfproc p.fds path) (λ f. show_if f fuel p w)
                  (fdfproc-open p.fds path fits)
                  (λ f (is_open, not_open).
                    subst (λ f. Returns (Adds w (named_line p.status p)) (show_if f fuel p w))
                      (sym (is_open has)) (show-named fuel p w some_fuel (status has) sized)))
          | inr none_has ↦
              rw (visit, number, none_has)
                (Returns-bind _ _ (fdfproc p.fds path) (λ f. show_if f fuel p w)
                  (fdfproc-open p.fds path fits)
                  (λ f (is_open, not_open).
                    rw (passed_over fuel p w f (not_open none_has))
                      (sized, sym (append-nil w.shown))))
        ]
  ]

  -- If in every directory of digits the links that are read fit their array, and, where the process has the
  -- path open, its status file does not open, or is read and has the name in its first line, a name that fits its
  -- array and has no newline and no NUL, then the program shows, in the order of /proc, exactly the directories of
  -- digits whose status file opens and that have the path among their links before one that cannot be read, each
  -- with its name.
  pub main_loop-lines :
      (fuel : ℕ) (ps : List Subdir) (w : Walk)
      → 0 < fuel
      → AllGood fuel ps
      → length w.pname ≡ pname_max
      → Returns (λ w'. w'.shown ≡ w.shown ++ lines_for ps) (main_loop fuel path ps w)
  unfolding main_loop
  main_loop-lines fuel [] w some_fuel good sized = sym (append-nil w.shown)
  main_loop-lines fuel (p ∷ ps) w some_fuel (g, good) sized =
      Returns-bind (Adds w (line_of p)) _ (visit fuel path p w) (main_loop fuel path ps)
        (visit-line fuel p w some_fuel g sized)
        (λ w' (sized', first).
          Returns-map _ _ (main_loop fuel path ps w')
            (λ w'' rest.
              rest
              ∙ ap (λ l. l ++ lines_for ps) first
              ∙ append_assoc w.shown (line_of p) (lines_for ps))
            (main_loop-lines fuel ps w' some_fuel good sized'))
