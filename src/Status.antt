-- ===== src/Status.antt =====
-- The scans of /proc/PID/status in src/imp/12-01.c. The array of the file is a list of its bytes, with
-- whatever stands in it behind the `size` bytes that were read; reading behind the array is a fault.
pub mod Lines
pub mod Names
mod Tests
use tlpiexer.Prelude.{
  ℕ, zero, suc, ◌+◌, ◌-◌, ◌*◌, ◌%◌, ◌^◌, Bool, true, false, not, ◌&&◌, ◌||◌, Option, none, some,
  List, [], ◌∷◌, ◌++◌, ◌==◌, ltb, leb, min, if◌then◌else◌, length, take, drop, Run, ok, fault,
  out_of_fuel, ◌>>=◌, ℤ, pos, negsuc,
}
use tlpiexer.CText.{Bytes}

-- `strncmp(&data[i], tag, strlen(tag)) == 0`, over the bytes from `i` on
unfoldable pub at_tag : Bytes → Bytes → Run Bool
at_tag [] s = ok true
at_tag (t ∷ tag) [] = fault
at_tag (t ∷ tag) (c ∷ s) = if c == t then at_tag tag s else ok false

-- `while (data[i] != '\n') i += 1; i += 1;`, with `i` and the bytes from `i` on
unfoldable pub skip_line : Bytes → ℕ → Run (Bytes × ℕ)
skip_line [] i = fault
skip_line (c ∷ s) i = let rest = skip_line s (i + 1) in if c == 10 then ok (s, i + 1) else rest

-- `while (data[i] == ' ') i += 1; i += 1;`
unfoldable pub skip_space : Bytes → Run Bytes
skip_space [] = fault
skip_space (c ∷ s) = let rest = skip_space s in if c == 32 then rest else ok s

-- The loop over the lines up to the tag: what stands behind it, or `none` where `i` comes to `size`.
unfoldable pub find_tag : ℕ → Bytes → ℕ → Bytes → ℕ → Run (Option Bytes)
find_tag zero tag size s i = out_of_fuel
find_tag (suc f) tag size s i =
    if leb size i
    then ok none
    else (at_tag tag s >>= λ hit.
        if hit
        then ok (some (drop (length tag) s))
        else (skip_line s i >>= λ (s', i'). find_tag f tag size s' i'))

abbrev pub is_digit : ℕ → Bool
is_digit c = leb 48 c && leb c 57

-- `strtol` in base 10: white space, a sign, and digits up to the first other byte.
unfoldable pub digits : Bytes → ℕ → ℕ
digits [] n = n
digits (c ∷ s) n = let m = digits s (n * 10 + (c - 48)) in if is_digit c then m else n

abbrev pub is_space : ℕ → Bool
is_space c = (c == 32) || (leb 9 c && leb c 13)

abbrev pub long_max : ℕ
long_max = 9223372036854775807

abbrev pub negative : ℕ → ℤ
negative zero = pos 0
negative (suc n) = negsuc n

unfoldable pub strtol : Bytes → ℤ
strtol [] = pos 0
strtol (c ∷ s) =
    let behind = strtol s in
    if is_space c
    then behind
    else if c == 45
    then negative (min (digits s 0) (long_max + 1))
    else if c == 43
    then pos (min (digits s 0) long_max)
    else pos (min (digits (c ∷ s) 0) long_max)

-- The conversion to `uid_t` and to `pid_t`, 32 bits both; a `pid_t` is given by its bits.
unfoldable pub to_32 : ℤ → ℕ
to_32 (pos n) = n % 2 ^ 32
to_32 (negsuc n) = 2 ^ 32 - 1 - n % 2 ^ 32

-- `Uid:`, `Pid:`, `Name:`
abbrev pub uid_tag : Bytes
uid_tag = 85 ∷ 105 ∷ 100 ∷ 58 ∷ []

abbrev pub pid_tag : Bytes
pid_tag = 80 ∷ 105 ∷ 100 ∷ 58 ∷ []

abbrev pub name_tag : Bytes
name_tag = 78 ∷ 97 ∷ 109 ∷ 101 ∷ 58 ∷ []

-- EXIT_FAILURE where there is no such line
unfoldable pub uid_from_sfile : ℕ → Bytes → ℕ → Run ℕ
uid_from_sfile fuel file size = find_tag fuel uid_tag size file 0 >>= λ found. elim found [
  | none ↦ ok 1
  | some s ↦ (skip_space s >>= λ s'. ok (to_32 (strtol s')))
]

unfoldable pub pid_from_sfile : ℕ → Bytes → ℕ → Run ℕ
pid_from_sfile fuel file size = find_tag fuel pid_tag size file 0 >>= λ found. elim found [
  | none ↦ ok 1
  | some s ↦ (skip_space s >>= λ s'. ok (to_32 (strtol s')))
]

-- The bytes before the next newline.
unfoldable pub to_newline : Bytes → Run Bytes
to_newline [] = fault
to_newline (c ∷ s) =
    let rest = to_newline s in if c == 10 then ok [] else (rest >>= λ t. ok (c ∷ t))

-- `memcpy(name, ..., namesize); name[namesize + 1] = '\0';` in an array of the length of `name`
unfoldable pub put_name : Bytes → Bytes → Run Bytes
put_name text name =
    if ltb (length text + 1) (length name)
    then ok (text ++ take 1 (drop (length text) name) ++ 0 ∷ drop (length text + 2) name)
    else fault

-- The result, and the array `name` behind the call.
unfoldable pub name_from_sfile : ℕ → Bytes → ℕ → Bytes → Run (ℕ × Bytes)
name_from_sfile fuel file size name = find_tag fuel name_tag size file 0 >>= λ found. elim found [
  | none ↦ ok (1, name)
  | some s ↦
      (skip_space s >>= λ s'.
      to_newline s' >>= λ text. put_name text name >>= λ name'. ok (0, name'))
]

-- A string of digits; the empty one too.
unfoldable pub isnumber : Bytes → Bool
isnumber [] = true
isnumber (c ∷ s) = is_digit c && isnumber s

abbrev pub some_digits : Bytes → Bool
some_digits [] = false
some_digits (c ∷ s) = isnumber (c ∷ s)

-- What `verifyproc` shows of a directory of /proc: the process id and the array `pname`. `status` is the
-- array behind `read` and how many bytes that gave, where `open`, `read` and `close` succeed; `pname` is
-- what the array holds before.
unfoldable pub verifyproc : ℕ → Bytes → Option (Bytes × ℕ) → Bytes → ℕ → Run (Option (ℕ × Bytes))
verifyproc fuel dirname status pname uid = if not (isnumber dirname) then ok none else elim status [
  | none ↦ ok none
  | some (file, datasize) ↦
      (uid_from_sfile fuel file datasize >>= λ puid.
      if puid == 2 ^ 32 - 1
      then ok none
      else if not (puid == uid)
      then ok none
      else (pid_from_sfile fuel file datasize >>= λ pid.
          name_from_sfile fuel file datasize pname >>= λ (ret, name). ok (some (pid, name))))
]

-- `*endptr == '\0'` behind `strtol`: white space, a sign and at least one digit, and nothing else
unfoldable pub whole_number : Bytes → Bool
whole_number [] = false
whole_number (c ∷ s) =
    let behind = whole_number s in
    if is_space c
    then behind
    else if (c == 45) || (c == 43)
    then some_digits s
    else some_digits (c ∷ s)

-- `name` is the text of the argument, and `getpwnam` the library's: -1 is 2 ^ 32 - 1.
unfoldable pub uidfname : (Bytes → Option ℕ) → Option Bytes → ℕ
uidfname getpwnam none = 2 ^ 32 - 1
uidfname getpwnam (some []) = 2 ^ 32 - 1
uidfname getpwnam (some (c ∷ s)) =
    if whole_number (c ∷ s)
    then to_32 (strtol (c ∷ s))
    else elim (getpwnam (c ∷ s)) [ none ↦ 2 ^ 32 - 1 | some uid ↦ uid ]
