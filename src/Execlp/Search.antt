-- ===== src/Execlp/Search.antt =====
-- The directories that the search of src/imp/27-02.c tries.
use tlpiexer.Prelude.{
  ℕ, zero, suc, ◌+◌, ◌-◌, ◌≡◌, ◌<◌, refl, sym, ap, ◌∙◌, Bool, true, false, Option, none, some, List,
  [], ◌∷◌, ◌++◌, ◌==◌, ltb, if◌then◌else◌, length, length-append, take, drop, take-add, drop-add,
  drop-Shows, arith, ok, fault, Bool-cases, Option-cases, inl, inr,
}
use tlpiexer.CText.{Bytes}
use tlpiexer.Execlp.{path_max, executable, search}

-- A text cut at its colons, where `dir` is what comes before it.
abbrev pieces : Bytes → Bytes → List Bytes
pieces dir [] = dir ∷ []
pieces dir (c ∷ text) = elim (c == b':') [
  | false ↦ pieces (dir ++ c ∷ []) text
  | true ↦ dir ∷ pieces [] text
]

abbrev pub split_at_colons : Bytes → List Bytes
split_at_colons = pieces []

abbrev pub all_but_last : List Bytes → List Bytes
all_but_last [] = []
all_but_last (x ∷ []) = []
all_but_last (x ∷ y ∷ xs) = x ∷ all_but_last (y ∷ xs)

all_but_last-pieces :
    (x dir text : Bytes) → all_but_last (x ∷ pieces dir text) ≡ x ∷ all_but_last (pieces dir text)
all_but_last-pieces x dir [] = refl
all_but_last-pieces x dir (c ∷ text) = elim (Bool-cases (c == b':')) [
  | inl colon ↦ rw (pieces, colon) refl
  | inr other ↦ rw (pieces, other) (all_but_last-pieces x (dir ++ c ∷ []) text)
]

-- The files that are there and that someone may execute
abbrev pub may_run : (Bytes → Option ℕ) → Bytes → Bool
may_run stat path = elim (stat path) [ none ↦ false | some st_mode ↦ executable st_mode ]

-- The first directory that has the program
abbrev pub first_in : (Bytes → Option ℕ) → Bytes → List Bytes → Option Bytes
first_in stat filename [] = none
first_in stat filename (dir ∷ dirs) =
    let path = dir ++ b'/' ∷ filename in
    if may_run stat path then some path else first_in stat filename dirs

slice_more :
    (epath dir : Bytes) (pstart k c : ℕ) (text : Bytes)
    → drop (pstart + k) epath ≡ c ∷ text
    → take k (drop pstart epath) ≡ dir
    → take (k + 1) (drop pstart epath) ≡ dir ++ c ∷ []
slice_more epath dir pstart k c text e slice =
    take-add k 1 (drop pstart epath)
    ∙ ap (λ l. l ++ take 1 (drop k (drop pstart epath))) slice
    ∙ ap (λ l. dir ++ take 1 l) (sym (drop-add pstart k epath) ∙ e)

module _ (stat : Bytes → Option ℕ) (filename epath : Bytes) where
  -- Where the program may be: what the loop finds when it goes on behind a directory
  search-tried :
      (n i : ℕ) (at path : Bytes) (found : Option Bytes)
      → at ≡ path
      → ltb (length path) path_max ≡ true
      → search stat filename epath n i i ≡ ok found
      → (elim (ltb (length at) path_max) [
        | false ↦ fault
        | true ↦ elim (stat at) [
          | none ↦ search stat filename epath n i i
          | some st_mode ↦ elim (executable st_mode) [
            | false ↦ search stat filename epath n i i
            | true ↦ ok (some at)
          ]
        ]
      ])
        ≡ ok (if may_run stat path then some path else found)
  search-tried n i at path found same short later = elim (Option-cases (stat path)) [
    | inl missing ↦ rw (same, short, same, may_run, missing, later) refl
    | inr (st_mode, there) ↦ elim (Bool-cases (executable st_mode)) [
      | inl runs ↦ rw (same, short, same, may_run, there, runs) (ap (λ x. ok (some x)) same)
      | inr not_runs ↦ rw (same, short, same, may_run, there, not_runs, later) refl
    ]
  ]

  search-first :
      (n i pstart k : ℕ) (dir text : Bytes)
      → i ≡ pstart + k
      → drop i epath ≡ text
      → take k (drop pstart epath) ≡ dir
      → n ≡ length text
      → length dir + length text + length filename + 1 < path_max
      → search stat filename epath n i pstart
        ≡ ok (first_in stat filename (all_but_last (pieces dir text)))
  unfolding search
  search-first zero i pstart k dir [] at e slice rounds fits = refl
  search-first (suc n) i pstart k dir [] at e slice rounds fits = absurd (omega arith)
  search-first zero i pstart k dir (c ∷ text) at e slice rounds fits = absurd (omega arith)
  search-first (suc n) i pstart k dir (c ∷ text) at e slice rounds fits =
      let shows = drop-Shows epath i c text e in
      let here : drop (pstart + k) epath ≡ c ∷ text = ap (λ j. drop j epath) (sym at) ∙ e in
      elim (Bool-cases (c == b':')) [
        | inl colon ↦
            let dir_now : take (i - pstart) (drop pstart epath) ≡ dir =
              ap (λ j. take j (drop pstart epath)) (omega arith) ∙ slice in
            let short : ltb (length (dir ++ b'/' ∷ filename)) path_max ≡ true =
              ground (arith, length-append dir (b'/' ∷ filename)) in
            let later =
              search-first n (i + 1) (i + 1) 0 [] text (omega arith) shows.next refl (omega arith)
                (omega arith) in
            rw (search, shows.elem, pieces, colon, all_but_last-pieces dir [] text)
              (search-tried n (i + 1) _ (dir ++ b'/' ∷ filename) _
                (ap (λ l. l ++ b'/' ∷ filename) dir_now) short later)
        | inr other ↦
            rw (search, shows.elem, pieces, other)
              (search-first n (i + 1) pstart (k + 1) (dir ++ c ∷ []) text (omega arith) shows.next
                (slice_more epath dir pstart k c text here slice) (omega arith)
                (omega (arith, length-append dir (c ∷ []))))
      ]

  -- The whole loop
  pub search_lem :
      length epath + length filename + 1 < path_max
      → search stat filename epath (length epath) 0 0
        ≡ ok (first_in stat filename (all_but_last (split_at_colons epath)))
  search_lem fits = search-first (length epath) 0 0 0 [] epath refl refl refl refl (omega arith)
