-- ===== src/Attributes.antt =====
-- The program of src/imp/15-07.c: it changes the attributes of a file by a mode like that of chattr.
pub mod Mode
mod Tests
use tlpiexer.Prelude.{
  ℕ, Bool, true, false, not, ◌&&◌, ◌||◌, Option, none, some, List, [], ◌∷◌, ◌==◌, if◌then◌else◌,
  Run, ok, fault,
}
use tlpiexer.CText.{Bytes}

-- An `int` of attributes by its bits: bit 0 is FS_SECRM_FL, the constant 1 of linux/fs.h.
abbrev pub Attr : Type 0
Attr = ℕ → Bool

abbrev pub no_attr : Attr
no_attr k = false

-- The bit of the attribute that the `switch` of `pattr` has for a character.
unfoldable pub flag_of : ℕ → Option ℕ
flag_of c =
    if c == b'a'
    then some 5
    else if c == b'c'
    then some 2
    else if c == b'D'
    then some 16
    else if c == b'i'
    then some 4
    else if c == b'j'
    then some 14
    else if c == b'A'
    then some 7
    else if c == b'd'
    then some 6
    else if c == b't'
    then some 15
    else if c == b's'
    then some 0
    else if c == b'S'
    then some 3
    else if c == b'T'
    then some 17
    else if c == b'u'
    then some 1
    else none

-- ATTRSET
abbrev pub attrset : Bytes
attrset = b'a' ∷ b'c' ∷ b'D' ∷ b'i' ∷ b'j' ∷ b'A' ∷ b'd' ∷ b't' ∷ b's' ∷ b'S' ∷ b'T' ∷ b'u' ∷ []

-- `*attr |= flag`
abbrev pub with_flag : ℕ → Attr → Attr
with_flag flag attr k = attr k || k == flag

-- Whether it returns RET_SUCCESS, and what stands in `*attr` then.
unfoldable pub pattr : Bytes → Attr → Bool × Attr
pattr [] attr = (true, attr)
pattr (c ∷ mode) attr = elim (flag_of c) [
  | none ↦ (false, attr)
  | some flag ↦ pattr mode (with_flag flag attr)
]

-- The `switch` on the first character: `none` is an operation that is not known.
unfoldable pub join : ℕ → Attr → Attr → Option Attr
join op oattr nattr =
    if op == b'+'
    then some (λ k. oattr k || nattr k)
    else if op == b'-'
    then some (λ k. oattr k && not (nattr k))
    else if op == b'='
    then some nattr
    else none

-- Whether `open`, the two `ioctl` and `close` succeed on the file.
pub record Calls : Type 0 where
  opens : Bool
  gets : Bool
  sets : Bool
  closes : Bool

-- `main` from where it parses the mode on: whether it exits with EXIT_SUCCESS, and the
-- attributes of the file then. The mode `""` makes it read behind the end of the argument.
unfoldable pub change : Calls → Bytes → Attr → Run (Bool × Attr)
change calls [] oattr = fault
change calls (op ∷ mode) oattr =
    let (parsed, nattr) = pattr mode no_attr in
    if not parsed then ok (false, oattr) else elim (join op oattr nattr) [
      | none ↦ ok (false, oattr)
      | some attr ↦ if not calls.sets then ok (false, oattr) else ok (calls.closes, attr)
    ]

-- `main`, from the arguments behind the program's name.
unfoldable pub main : Calls → List Bytes → Attr → Run (Bool × Attr)
main calls (mode ∷ path ∷ []) oattr =
    if not calls.opens
    then ok (false, oattr)
    else if not calls.gets
    then ok (false, oattr)
    else change calls mode oattr
main calls argv oattr = ok (false, oattr)
