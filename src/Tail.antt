-- ===== src/Tail.antt =====
-- `showline` of src/imp/13-5.c, on a regular file: a `read` that succeeds gives all the bytes that are
-- asked for.
pub mod Count
pub mod Lines
mod Tests
use tlpiexer.Prelude.{
  ℕ, zero, suc, ◌+◌, ◌-◌, Bool, not, Option, none, some, List, [], ◌∷◌, ◌++◌, ◌==◌, ltb,
  if◌then◌else◌, length, take, drop, Run, ok, fault, out_of_fuel, ◌>>=◌,
}
use tlpiexer.CText.{Bytes, c_str}

abbrev pub buf_size : ℕ
buf_size = 1024

-- `buf[i]`
unfoldable pub byte_at : Bytes → ℕ → ℕ
byte_at [] i = 0
byte_at (c ∷ s) zero = c
byte_at (c ∷ s) (suc i) = byte_at s i

-- The inner loop, with the bytes below `i` still to look at: `numlf` behind it, and the `i` at which it
-- ended early.
unfoldable pub scan : ℕ → Bytes → ℕ → ℕ → ℕ × Option ℕ
scan zero buf numlf numline = (numlf, none)
scan (suc i) buf numlf numline =
    let numlf' = if byte_at buf i == 10 then numlf + 1 else numlf in
    let rest = scan i buf numlf' numline in if ltb numline numlf' then (numlf', some i) else rest

abbrev pub block_start : ℕ → ℕ
block_start preoff = if ltb buf_size preoff then preoff - buf_size else 0

-- The outer loop, from the offset of the block behind: the offset at which it ends, or `none` where one
-- of the two calls of `lseek` or the `read` of a round fails; `calls` says by the offset behind the block
-- whether all three succeed.
unfoldable pub find_start : ℕ → (ℕ → Bool) → Bytes → ℕ → ℕ → ℕ → Run (Option ℕ)
find_start zero calls file preoff numlf numline = out_of_fuel
find_start (suc f) calls file preoff numlf numline =
    if not (calls preoff)
    then ok none
    else (let offset = block_start preoff in
        let buf = take (preoff - offset) (drop offset file) in
        let (numlf', hit) = scan (length buf) buf numlf numline in
        let rest = find_start f calls file offset numlf' numline in
        elim hit [
          | some i ↦ ok (some (offset + (i + 1)))
          | none ↦ if offset == 0 then ok (some 0) else rest
        ])

-- The loop that prints what is left of the file. A block that fills `buf` is ended by a NUL behind it;
-- and the -1 of a `read` that fails is the greatest `size_t`, so that a NUL goes far behind it. `reads`
-- says by the number of bytes left whether a call of `read` succeeds.
unfoldable pub display : ℕ → (ℕ → Bool) → Bytes → Bytes → Run Bytes
display zero reads file shown = out_of_fuel
display (suc f) reads file shown =
    if not (reads (length file))
    then fault
    else (let buf = take buf_size file in
        let rest = display f reads (drop buf_size file) (shown ++ c_str buf_size buf) in
        if length buf == 0 then ok shown else if ltb (length buf) buf_size then rest else fault)

-- Whether the other calls succeed: `open`, the `lseek` to the end, the `lseek` to the lines, `close`.
pub record Calls : Type 0 where
  pub opens : Bool
  pub sizes : Bool
  pub searches : ℕ → Bool
  pub seeks : Bool
  pub reads : ℕ → Bool
  pub closes : Bool

-- The exit code, and what is printed of the last `numline` lines.
unfoldable pub showline : ℕ → Calls → Bytes → ℕ → Run (ℕ × Bytes)
showline fuel c file numline =
    if not c.opens
    then ok (1, [])
    else if not c.sizes
    then ok (1, [])
    else (find_start fuel c.searches file (length file) 0 numline >>= λ found. elim found [
      | none ↦ ok (1, [])
      | some offset ↦
          if not c.seeks
          then ok (1, [])
          else (display fuel c.reads (drop offset file) [] >>= λ shown.
              if not c.closes then ok (1, shown) else ok (0, shown))
    ])
