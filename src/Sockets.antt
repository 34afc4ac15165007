-- ===== src/Sockets.antt =====
-- The sockets that src/lib/59-04-isock.c, src/lib/59-03.c and src/lib/61-02.c make. What a system call
-- answers is given; the model keeps which descriptors the process holds.
pub mod Internet
pub mod Local
pub mod Pair
pub mod First
pub mod Owned
pub mod Closes
mod Tests
use tlpiexer.Prelude.{
  ℕ, zero, suc, Bool, true, false, Option, none, some, List, [], ◌∷◌, ◌==◌, if◌then◌else◌, ℤ, pos,
  negsuc, fn_er,
}

-- The descriptors that the process holds, the lists of `getaddrinfo` that it has not given back, the
-- calls of `close` that met no open descriptor, and `errno`
pub record Process : Type 0 where
  pub fds : List ℕ
  pub addr_lists : ℕ
  pub bad_closes : ℕ
  pub errno : ℕ

-- The descriptors without `fd`, if it is one of them.
unfoldable pub without : ℕ → List ℕ → Option (List ℕ)
without fd [] = none
without fd (x ∷ xs) =
    if fd == x then some xs else elim (without fd xs) [ none ↦ none | some ys ↦ some (x ∷ ys) ]

unfoldable pub close : ℕ → Process → Process
close fd p = elim (without fd p.fds) [
  | none ↦ record p { bad_closes = suc p.bad_closes }
  | some fds ↦ record p { fds = fds }
]

-- `socket` and `accept`: the descriptor `fd`, or -1
unfoldable pub socket : Bool → ℕ → Process → ℤ × Process
socket false fd p = (fn_er, p)
socket true fd p = (pos fd, record p { fds = fd ∷ p.fds })

-- `if (fd > 0) close(fd);`
unfoldable pub close_positive : ℤ → Process → Process
close_positive (pos zero) p = p
close_positive (pos (suc n)) p = close (suc n) p
close_positive (negsuc n) p = p
