-- ===== src/Prelude/Integers.antt =====
-- C's `int` where a call returns a count, a descriptor or -1.
use Prim.Native.Nat.{ℕ}

pub data ℤ : Type 0 where
  pos negsuc : ℕ → ℤ

abbrev pub fn_ok : ℤ
fn_ok = pos 0

abbrev pub fn_er : ℤ
fn_er = negsuc 0
