-- ===== src/Copy.antt =====
-- The loops that move bytes between descriptors: `sendfile_x` (src/lib/61-03.c), `cp` (src/imp/04-02.c),
-- `tee` (src/imp/04-01.c), `readv` and `writev` (src/imp/05-07.c). What each call of `read` and `write`
-- does is given, by the number of calls before it.
pub mod Send
pub mod Moved
pub mod Sent
pub mod Offset
pub mod Programs
pub mod Whole
pub mod Doubled
pub mod Vector
pub mod Gather
mod Tests
use tlpiexer.Prelude.{
  ℕ, zero, suc, ◌+◌, Bool, true, false, Option, none, some, List, [], ◌∷◌, ◌++◌, length, take, drop,
  min,
}
use tlpiexer.CText.{Bytes}

-- A call of `read` fails, or gives at most `suc k` bytes.
pub data ReadAnswer : Type 0 where
  no_read : ReadAnswer
  upto : ℕ → ReadAnswer

-- A call of `write` fails, takes everything, or takes at most `suc k` bytes.
pub data WriteAnswer : Type 0 where
  no_write whole : WriteAnswer
  part : ℕ → WriteAnswer

pub record Calls : Type 0 where
  pub reads : ℕ → ReadAnswer
  pub writes : ℕ → WriteAnswer

-- The file that is read, with its position; what was written; and the calls of `read` so far.
pub record Io : Type 0 where
  pub content : Bytes
  pub pos : ℕ
  pub output : Bytes
  pub count : ℕ

abbrev pub unread : Io → Bytes
unread io = drop io.pos io.content

-- The bytes that a call of `read` of at most `n` puts into the buffer; `none` is -1.
unfoldable pub read : ReadAnswer → ℕ → Io → Option Bytes × Io
read no_read n io = (none, io)
read (upto k) n io =
    let buf = take (min n (suc k)) (unread io) in
    (some buf, record io { pos = io.pos + length buf; count = suc io.count })

-- How much a call of `write` takes; `none` is -1.
unfoldable pub write : WriteAnswer → Bytes → Io → Option ℕ × Io
write no_write buf io = (none, io)
write whole buf io = (some (length buf), record io { output = io.output ++ buf })
write (part k) buf io =
    let sent = take (suc k) buf in (some (length sent), record io { output = io.output ++ sent })
