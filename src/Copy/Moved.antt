-- ===== src/Copy/Moved.antt =====
-- What a loop that copies has moved from the file to the output.
use tlpiexer.Prelude.{
  ℕ, suc, ◌+◌, ◌≡◌, ◌≢◌, ◌⊎◌, refl, sym, ap, ◌∙◌, ◌++◌, length, take, arith, append_assoc,
  append-nil, take-add, drop-add,
}
use tlpiexer.CText.{Bytes}
use tlpiexer.Copy.{Calls, no_read, whole, Io, unread}

-- `n` bytes behind the position were written, and the position is behind them.
pub record Moved (io : Io) (n : ℕ) (io' : Io) : Type 0 where
  pub output : io'.output ≡ io.output ++ take n (unread io)
  pub pos : io'.pos ≡ io.pos + n
  pub content : io'.content ≡ io.content

-- Some call of `read` failed, or some call of `write` did not take everything.
abbrev pub Broken : Calls → Type 0
Broken c = (i : ℕ) × ((c.reads i ≡ no_read) ⊎ (c.writes i ≢ whole))

-- A prefix of the file, from the position on, was written.
abbrev pub Prefix : Io → Io → Type 0
Prefix io io' = (n : ℕ) × (io'.output ≡ io.output ++ take n (unread io))

-- Nothing is written.
pub Moved-none :
    (io : Io) (n pos count : ℕ)
    → n ≡ 0
    → pos ≡ io.pos
    → Moved io n (record io { pos = pos; count = count })
Moved-none io n pos count e f = record {
  output = sym (append-nil io.output) ∙ ap (λ k. io.output ++ take k (unread io)) (sym e);
  pos = omega arith;
  content = refl;
}

-- One round in which `buf` went over.
abbrev pub onward : Io → Bytes → Io
onward io buf = record io {
  pos = io.pos + length buf;
  output = io.output ++ buf;
  count = suc io.count;
}

module _ (io : Io) (buf : Bytes) (is_next : take (length buf) (unread io) ≡ buf) where
  joined :
      (n : ℕ)
      → (io.output ++ buf) ++ take n (unread (onward io buf))
        ≡ io.output ++ take (length buf + n) (unread io)
  joined n =
      rw (drop-add io.pos (length buf) io.content, take-add (length buf) n (unread io), is_next)
        (append_assoc io.output buf _)

  pub Moved-onward :
      (n : ℕ) (io' : Io) → Moved (onward io buf) n io' → Moved io (length buf + n) io'
  Moved-onward n io' m = record {
    output = m.output ∙ joined n;
    pos = omega (arith, m.pos);
    content = m.content;
  }

  pub Prefix-onward : (io' : Io) → Prefix (onward io buf) io' → Prefix io io'
  Prefix-onward io' (n, e) = (length buf + n, e ∙ joined n)
