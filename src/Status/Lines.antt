-- ===== src/Status/Lines.antt =====
-- The scans of src/imp/12-01.c over a file of lines.
use tlpiexer.Prelude.{
  ℕ, zero, suc, ◌+◌, ◌-◌, ◌≡◌, ◌≤◌, ◌<◌, refl, ap, ◌∙◌, Bool, true, false, none, some, List, [],
  ◌∷◌, ◌++◌, ◌==◌, leb, if◌then◌else◌, length, length-append, drop, append_assoc, arith, ok,
  Bool-cases, inl, inr,
}
use tlpiexer.CText.{Bytes, text, NoNewline}
use tlpiexer.Status.{at_tag, skip_line, find_tag}

unfoldable pub starts : Bytes → Bytes → Bool
starts [] line = true
starts (t ∷ tag) [] = false
starts (t ∷ tag) (c ∷ line) = if c == t then starts tag line else false

-- None of the lines holds a newline, or starts with the tag.
abbrev pub Others : Bytes → List Bytes → Type 0
Others tag [] = Unit {0}
Others tag (line ∷ lines) = (NoNewline line × (starts tag line ≡ false)) × Others tag lines

at_tag-line :
    (tag line more : Bytes)
    → NoNewline tag
    → starts tag line ≡ false
    → at_tag tag (line ++ 10 ∷ more) ≡ ok false
unfolding at_tag starts
at_tag-line [] line more n other = cc
at_tag-line (t ∷ tag) [] more (n, ns) other = ground arith
at_tag-line (t ∷ tag) (c ∷ line) more (n, ns) other = elim (Bool-cases (c == t)) [
  | inl same ↦ rw same (at_tag-line tag line more ns (ground arith))
  | inr differ ↦ rw differ
]

at_tag-here : (tag s : Bytes) → at_tag tag (tag ++ s) ≡ ok true
unfolding at_tag
at_tag-here [] s = refl
at_tag-here (t ∷ tag) s = let e : (t == t) ≡ true = ground arith in rw e (at_tag-here tag s)

drop-here : (tag s : Bytes) → drop (length tag) (tag ++ s) ≡ s
drop-here [] s = refl
drop-here (t ∷ tag) s = drop-here tag s

skip_line-line :
    (line more : Bytes) (i : ℕ)
    → NoNewline line
    → skip_line (line ++ 10 ∷ more) i ≡ ok (more, i + (length line + 1))
unfolding skip_line
skip_line-line [] more i n = ap (λ k. ok (more, k)) (omega arith)
skip_line-line (c ∷ line) more i (n, ns) =
    let e : (c == 10) ≡ false = ground arith in
    rw e (skip_line-line line more (i + 1) ns ∙ ap (λ k. ok (more, k)) (omega arith))

not_leb : (a b : ℕ) → b < a → leb a b ≡ false
not_leb a b h = ground arith

is_leb : (a b : ℕ) → a ≤ b → leb a b ≡ true
is_leb a b h = ground arith

-- The loop comes past the lines.
pub find_tag-Others :
    (tag : Bytes) (lines : List Bytes) (s : Bytes) (size g f i : ℕ)
    → NoNewline tag
    → Others tag lines
    → g ≡ length lines + f
    → i + length (text lines) ≤ size
    → find_tag g tag size (text lines ++ s) i ≡ find_tag f tag size s (i + length (text lines))
unfolding find_tag text
find_tag-Others tag [] s size g f i n others e inside =
    let e' : g ≡ f = omega arith in
    let e'' : i ≡ i + 0 = omega arith in
    ap (λ g. find_tag g tag size s i) e' ∙ ap (find_tag f tag size s) e''
find_tag-Others tag (line ∷ lines) s size zero f i n others e inside = absurd (omega arith)
find_tag-Others tag (line ∷ lines) s size (suc g) f i n ((nl, other), others) e inside =
    let len = length-append line (10 ∷ text lines) in
    let inside_now : leb size i ≡ false = not_leb size i (omega arith) in
    let shape : (line ++ 10 ∷ text lines) ++ s ≡ line ++ 10 ∷ (text lines ++ s) =
      append_assoc line (10 ∷ text lines) s in
    let next =
      find_tag-Others tag lines s size g f (i + (length line + 1)) n others (omega arith)
        (omega arith) in
    rw
      (
        shape,
        find_tag,
        inside_now,
        at_tag-line tag line (text lines ++ s) n other,
        skip_line-line line (text lines ++ s) i nl,
      )
      (next ∙ ap (find_tag f tag size s) (omega arith))

-- The first line of a tag in a file, and what stands behind the tag.
pub record Tagged (tag : Bytes) (file : Bytes) (size fuel : ℕ) (rest : Bytes) : Type 0 where
  pub lines : List Bytes
  pub others : Others tag lines
  pub shape : file ≡ text lines ++ (tag ++ rest)
  pub inside : length (text lines) < size
  pub enough : length lines < fuel

-- The round at the tag, and the one behind the file.
round_at :
    (f : ℕ) (tag rest : Bytes) (size i : ℕ)
    → i < size
    → find_tag (suc f) tag size (tag ++ rest) i ≡ ok (some rest)
unfolding find_tag
round_at f tag rest size i inside =
    rw (find_tag, not_leb size i inside, at_tag-here tag rest, drop-here tag rest)

round_behind :
    (f : ℕ) (tag s : Bytes) (size i : ℕ) → size ≤ i → find_tag (suc f) tag size s i ≡ ok none
unfolding find_tag
round_behind f tag s size i out = rw (find_tag, is_leb size i out)

pub find_tag-Tagged :
    (tag file : Bytes) (size fuel : ℕ) (rest : Bytes)
    → NoNewline tag
    → Tagged tag file size fuel rest
    → find_tag fuel tag size file 0 ≡ ok (some rest)
find_tag-Tagged tag file size fuel rest n t =
    let f = fuel - suc (length t.lines) in
    let e = t.enough in
    ap (λ s. find_tag fuel tag size s 0) t.shape
    ∙ find_tag-Others tag t.lines (tag ++ rest) size fuel (suc f) 0 n t.others (omega arith)
        (let h = t.inside in omega arith)
    ∙ round_at f tag rest size (0 + length (text t.lines)) (let h = t.inside in omega arith)

-- A file that has no such line.
pub find_tag-missing :
    (tag : Bytes) (lines : List Bytes) (behind : Bytes) (fuel : ℕ)
    → NoNewline tag
    → Others tag lines
    → length lines < fuel
    → find_tag fuel tag (length (text lines)) (text lines ++ behind) 0 ≡ ok none
find_tag-missing tag lines behind fuel n others enough =
    let f = fuel - suc (length lines) in
    let size = length (text lines) in
    find_tag-Others tag lines behind size fuel (suc f) 0 n others (omega arith) (omega arith)
    ∙ round_behind f tag behind size (0 + size) (omega arith)
