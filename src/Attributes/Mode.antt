-- ===== src/Attributes/Mode.antt =====
-- What a mode does to the attributes of a file, in src/imp/15-07.c.
use tlpiexer.Prelude.{
  ℕ, ◌≡◌, refl, sym, ◌∙◌, Bool, true, false, not, ◌&&◌, ◌||◌, Option, none, some, [], ◌∷◌, ◌==◌,
  if◌then◌else◌, arith, Run, ok, Bool-cases, Option-cases, inl, inr,
}
use mathlib.Core.Path.{fun_ext}
use tlpiexer.CText.{Bytes}
use tlpiexer.Attributes.{
  Attr, no_attr, flag_of, attrset, with_flag, pattr, join, Calls, change, main,
}

abbrev elem : ℕ → Bytes → Bool
elem c [] = false
elem c (x ∷ s) = c == x || elem c s

-- Whether a mode has only the characters of ATTRSET.
abbrev pub known : Bytes → Bool
known [] = true
known (c ∷ s) = elem c attrset && known s

-- Whether one of a mode's characters stands for the attribute.
abbrev pub named : Bytes → ℕ → Bool
named [] k = false
named (c ∷ s) k = (elim (flag_of c) [ none ↦ false | some flag ↦ k == flag ]) || named s k

unfoldable is_some : Option ℕ → Bool
is_some none = false
is_some (some a) = true

is_some-if :
    (b : Bool) (a : ℕ) (o : Option ℕ) → is_some (if b then some a else o) ≡ (b || is_some o)
unfolding is_some
is_some-if true a o = refl
is_some-if false a o = refl

is_some-none : is_some none ≡ false
unfolding is_some
is_some-none = refl

flag_of-attrset : (c : ℕ) → is_some (flag_of c) ≡ elem c attrset
unfolding flag_of
flag_of-attrset c = simp (is_some-if, is_some-none)

or_assoc : (a b c : Bool) → ((a || b) || c) ≡ (a || (b || c))
or_assoc true b c = refl
or_assoc false b c = refl

or_false : (a : Bool) → (a || false) ≡ a
or_false true = refl
or_false false = refl

pattr-named :
    (mode : Bytes) (attr : Attr)
    → ((pattr mode attr).0 ≡ known mode)
      × (known mode ≡ true → (k : ℕ) → (pattr mode attr).1 k ≡ (attr k || named mode k))
unfolding pattr is_some
pattr-named [] attr = (refl, λ _ k. sym (or_false (attr k)))
pattr-named (c ∷ mode) attr =
    let is_known = sym (flag_of-attrset c) in
    elim (Option-cases (flag_of c)) [
      | inl other ↦ rw (is_known, pattr, other) (refl, λ no k. cc)
      | inr (flag, is_flag) ↦
          let (parsed, sets) = pattr-named mode (with_flag flag attr) in
          rw (is_known, pattr, is_flag)
            (parsed, λ all k. sets all k ∙ or_assoc (attr k) (k == flag) (named mode k))
    ]

abbrev known_op : ℕ → Bool
known_op op = op == b'+' || (op == b'-' || op == b'=')

-- Whether `main` comes to set the attributes.
abbrev pub does_change : Calls → ℕ → Bytes → Bool
does_change calls op mode =
    calls.opens && (calls.gets && (known mode && (known_op op && calls.sets)))

-- What an operation makes of an attribute, by whether the file has it and whether the mode names it.
abbrev pub wanted : ℕ → Bool → Bool → Bool
wanted op old is_named =
    if op == b'+' then old || is_named else if op == b'-' then old && not is_named else is_named

join-wanted :
    (op : ℕ) (oattr nattr : Attr)
    → join op oattr nattr
      ≡ (if known_op op then some (λ k. wanted op (oattr k) (nattr k)) else none)
unfolding join
join-wanted op oattr nattr = ground arith

abbrev set_if_known : Calls → Attr → Option Attr → Run (Bool × Attr)
set_if_known calls old none = ok (false, old)
set_if_known calls old (some attr) =
    if not calls.sets then ok (false, old) else ok (calls.closes, attr)

set_attr :
    (op_known sets closes opens gets : Bool) (old new : Attr)
    → set_if_known
        (record { opens = opens; gets = gets; sets = sets; closes = closes })
        old
        (if op_known then some new else none)
      ≡ if◌then◌else◌ {A = Run (Bool × Attr)}
          (op_known && sets)
          (ok (closes, new))
          (ok (false, old))
set_attr true true closes opens gets old new = refl
set_attr true false closes opens gets old new = refl
set_attr false sets closes opens gets old new = refl

change-wanted :
    (calls : Calls) (op : ℕ) (mode : Bytes) (attr : Attr)
    → change calls (op ∷ mode) attr ≡ (
        if known mode && (known_op op && calls.sets)
        then ok (calls.closes, λ k. wanted op (attr k) (named mode k))
        else ok (false, attr))
unfolding change
change-wanted calls op mode attr =
    let (parsed, sets) = pattr-named mode no_attr in
    elim (Bool-cases (known mode)) [
      | inl all ↦
          let nattr : (pattr mode no_attr).1 ≡ named mode = fun_ext (sets all) in
          rw (parsed, all, nattr, join-wanted op attr (named mode))
            (set_attr (known_op op) calls.sets calls.closes calls.opens calls.gets attr _)
      | inr other ↦ rw (parsed, other) refl
    ]

-- With two arguments, a mode that is not empty and a path, the program sets each attribute to what the
-- operation makes of it, if every call before succeeds, the mode's characters are all in ATTRSET and the operation is
-- one of + - =; else it fails and leaves all attributes as they are.
pub main-changes :
    (calls : Calls) (op : ℕ) (mode path : Bytes) (attr : Attr)
    → main calls ((op ∷ mode) ∷ path ∷ []) attr ≡ (
        if does_change calls op mode
        then ok (calls.closes, λ k. wanted op (attr k) (named mode k))
        else ok (false, attr))
unfolding main
main-changes calls op mode path attr = elim (Bool-cases calls.opens) [
  | inl opens ↦ elim (Bool-cases calls.gets) [
    | inl gets ↦ simp (opens, gets) (change-wanted calls op mode attr)
    | inr lost ↦ simp (opens, lost)
  ]
  | inr closed ↦ simp closed
]

abbrev pub all_succeed : Calls
all_succeed = record { opens = true; gets = true; sets = true; closes = true }
