-- ===== src/LineBuf.antt =====
-- `init_lbuf` and `read_lbuf` of src/lib/59-01.c. Its size, BUF_SIZE of include/tlpiexer/59-01.h, is
-- an argument: no theorem depends on its value.
pub mod Scan
pub mod Next
pub mod Across
pub mod Lines
pub mod Bounds
pub mod Ends
mod Tests
use tlpiexer.Prelude.{
  ℕ, zero, suc, ◌+◌, ◌-◌, min, Bool, true, false, Option, none, some, List, [], ◌∷◌, ◌++◌, ◌==◌,
  ltb, if◌then◌else◌, length, take, drop, get_elem?, Run, ok, fault, out_of_fuel, ◌>>=◌, ℤ, pos,
  fn_ok, fn_er,
}
use tlpiexer.CText.{Bytes}

-- A descriptor: the bytes that are still to come, and what the next calls of `read` do: fail, or give at
-- most so many bytes. A call behind these gives all that it is asked for, if there is as much.
pub record Source : Type 0 where
  pub unread : Bytes
  pub limits : List (Option ℕ)

-- `read(fd, buf, n)`, by the limit of this call
abbrev read_at_most : ℕ → Bytes → List (Option ℕ) → Option Bytes × Source
read_at_most n s limits = (some (take n s), record { unread = drop n s; limits = limits })

unfoldable pub read : ℕ → Source → Option Bytes × Source
read n src = elim src.limits [
  | [] ↦ read_at_most n src.unread []
  | none ∷ limits ↦ (none, record src { limits = limits })
  | some k ∷ limits ↦ read_at_most (min n k) src.unread limits
]

-- `cur` is an index of `buf`; `ebuf`, the end of `buf`, is its size.
pub record Lbuf : Type 0 where
  pub src : Source
  pub efile : Bool
  pub buf : Bytes
  pub cur : ℕ

-- `bytes` over the ones from index `i` on
abbrev pub store : ℕ → Bytes → Bytes → Bytes
store i bytes buf = take i buf ++ bytes ++ drop (i + length bytes) buf

unfoldable pub init_lbuf : ℕ → Source → Lbuf → ℤ × Lbuf
init_lbuf size src lbuf =
    let (got, src') = read size src in
    elim got [
      | none ↦ (fn_er, lbuf)
      | some bytes ↦ (
        fn_ok,
        record {
          src = src';
          efile = ltb (length bytes) size;
          buf = store 0 bytes lbuf.buf;
          cur = 0;
        },
      )
    ]

-- How a refill ends: with more bytes, whose index it gives, at the end of the file, by an error, or in
-- a `memcpy` between regions that overlap.
pub data Refill : Type 0 where
  filled : Lbuf → ℕ → Refill
  ended : Lbuf → Refill
  failed : Lbuf → Refill
  overlaps : Refill

-- The bytes from `cur` on go to the front, and a `read` fills the rest.
unfoldable pub refill : ℕ → Lbuf → Refill
refill size lbuf =
    let tsize = size - lbuf.cur in
    let moved = store 0 (drop lbuf.cur lbuf.buf) lbuf.buf in
    let (got, src') = read (size - tsize) lbuf.src in
    if ltb lbuf.cur tsize then overlaps else elim got [
      | none ↦ failed (record lbuf { src = src'; buf = moved })
      | some [] ↦ ended (record lbuf { src = src'; buf = moved; efile = true })
      | some (c ∷ bytes) ↦
          filled (record lbuf { src = src'; buf = store tsize (c ∷ bytes) moved; cur = 0 }) tsize
    ]

-- The end of a call: what it returns, what it copies to `line`, and the buffer.
abbrev pub Out : Type 0
Out = ℤ × Bytes × Lbuf

abbrev pub finish : Lbuf → ℕ → ℕ → Out
finish lbuf seek lsize =
    (pos lsize, take (seek - lbuf.cur) (drop lbuf.cur lbuf.buf), record lbuf { cur = seek + 1 })

-- The loop. `*seek` outside of `buf` is a fault; the call's `size` is `lim` here.
unfoldable pub scan_line : ℕ → ℕ → ℕ → Lbuf → ℕ → ℕ → Run Out
scan_line zero size lim lbuf seek lsize = out_of_fuel
scan_line (suc f) size lim lbuf seek lsize =
    let look = λ (b : Lbuf) (s : ℕ).
      let out : Run Out = elim (get_elem? b.buf s) [
        | none ↦ fault
        | some c ↦
            let rest = scan_line f size lim b (s + 1) (lsize + 1) in
            if c == 10
            then ok (finish b s lsize)
            else if ltb lim (lsize + 1)
            then ok (fn_er, [], b)
            else rest
      ] in
      out in
    if seek == size
    then if lbuf.efile then ok (finish lbuf seek lsize) else elim (refill size lbuf) [
      | filled b s ↦ look b s
      | ended b ↦ ok (pos 0, [], b)
      | failed b ↦ ok (fn_er, [], b)
      | overlaps ↦ fault
    ]
    else look lbuf seek

-- Each round of the loop but the last counts a byte of the line, and a count above `lim` ends it.
unfoldable pub read_lbuf : ℕ → ℕ → Lbuf → Run Out
read_lbuf size lim lbuf = scan_line (suc lim) size lim lbuf lbuf.cur 0
