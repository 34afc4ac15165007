-- ===== src/Sockets/First.antt =====
-- The loops of src/lib/59-04-isock.c over the addresses.
use tlpiexer.Prelude.{
  ℕ, zero, suc, ◌≡◌, refl, ap, Bool, true, false, ◌&&◌, Option, none, some, List, [], ◌∷◌, ◌==◌,
  if◌then◌else◌, arith, Bool-cases, inl, inr, ℤ, pos, negsuc, fn_er,
}
use tlpiexer.Sockets.{Process, without, close, socket}
use tlpiexer.Sockets.Internet.{
  Address, with_list, connect_loop, listen_loop, isock_connect, isock_listen, fd_or_error,
}

-- Every call that an address needs succeeds.
abbrev pub connects : Address → Bool
connects a = a.made && a.connected

abbrev pub listens : Address → Bool
listens a = a.made && (a.optioned && (a.bound && a.listening))

abbrev pub is_zero : ℤ → Bool
is_zero (pos zero) = true
is_zero _ = false

-- The descriptor at the first address that passes a test.
unfoldable pub first_fd : (Address → Bool) → List Address → Option ℕ
first_fd t [] = none
first_fd t (a ∷ addrs) = if t a then some a.fd else first_fd t addrs

-- The descriptor of a call that found one is the caller's; otherwise nothing is held in addition.
abbrev pub taken : Option ℕ → Process → ℤ × Process
taken none p = (fn_er, p)
taken (some fd) p = (pos fd, record p { fds = fd ∷ p.fds })

close-socket : (fd : ℕ) (p : Process) → close fd (record p { fds = fd ∷ p.fds }) ≡ p
unfolding close without
close-socket fd p = let e : (fd == fd) ≡ true = ground arith in rw (close, without, e)

abbrev pub looped : Option ℕ → Process → Option ℤ × Process
looped none p = (none, p)
looped (some fd) p = (some (pos fd), record p { fds = fd ∷ p.fds })

connect_loop-first :
    (addrs : List Address) (p : Process) → connect_loop addrs p ≡ looped (first_fd connects addrs) p
unfolding connect_loop first_fd socket
connect_loop-first [] p = refl
connect_loop-first (a ∷ addrs) p = elim (Bool-cases a.made) [
  | inr off ↦ rw off (connect_loop-first addrs p)
  | inl made ↦ elim (Bool-cases a.connected) [
    | inr off ↦ rw (made, off, close-socket a.fd p) (connect_loop-first addrs p)
    | inl connected ↦ rw (made, connected)
  ]
]

listen_loop-first :
    (addrs : List Address) (p : Process) → listen_loop addrs p ≡ looped (first_fd listens addrs) p
unfolding listen_loop first_fd socket
listen_loop-first [] p = refl
listen_loop-first (a ∷ addrs) p = elim (Bool-cases a.made) [
  | inr off ↦ rw off (listen_loop-first addrs p)
  | inl made ↦ elim (Bool-cases a.optioned) [
    | inr off ↦ rw (made, off, close-socket a.fd p) (listen_loop-first addrs p)
    | inl optioned ↦ elim (Bool-cases a.bound) [
      | inr off ↦ rw (made, optioned, off, close-socket a.fd p) (listen_loop-first addrs p)
      | inl bound ↦ elim (Bool-cases a.listening) [
        | inr off ↦ rw (made, optioned, bound, off, close-socket a.fd p) (listen_loop-first addrs p)
        | inl listening ↦ rw (made, optioned, bound, listening)
      ]
    ]
  ]
]

fd_or_error-looped :
    (found : Option ℕ) (p : Process) → fd_or_error (looped found (with_list p)) ≡ taken found p
fd_or_error-looped none p = ap (λ n. (fn_er, record p { addr_lists = n })) (omega arith)
fd_or_error-looped (some fd) p =
    ap (λ n. (pos fd, record p { fds = fd ∷ p.fds; addr_lists = n })) (omega arith)

-- `isock_connect` returns the code of `getaddrinfo` if that is not 0; otherwise the descriptor of the
-- first address whose `socket` and `connect` succeed, and -1 where there is none. Of the sockets that it
-- made only the one that it returns stays open, and the list of addresses is given back.
pub isock_connect-first :
    (gai : ℤ) (addrs : List Address) (p : Process)
    → isock_connect gai addrs p
      ≡ (if is_zero gai then taken (first_fd connects addrs) p else (gai, p))
unfolding isock_connect
isock_connect-first (pos zero) addrs p =
    rw (connect_loop-first addrs (with_list p)) (fd_or_error-looped (first_fd connects addrs) p)
isock_connect-first (pos (suc n)) addrs p = refl
isock_connect-first (negsuc n) addrs p = refl

-- `isock_listen` returns the code of `getaddrinfo` if that is not 0; otherwise the descriptor of
-- the first address whose `socket`, `setsockopt`, `bind` and `listen` succeed, and -1 where there
-- is none. Only that socket stays open, and the list of addresses is given back.
pub isock_listen-first :
    (gai : ℤ) (addrs : List Address) (p : Process)
    → isock_listen gai addrs p
      ≡ (if is_zero gai then taken (first_fd listens addrs) p else (gai, p))
unfolding isock_listen
isock_listen-first (pos zero) addrs p =
    rw (listen_loop-first addrs (with_list p)) (fd_or_error-looped (first_fd listens addrs) p)
isock_listen-first (pos (suc n)) addrs p = refl
isock_listen-first (negsuc n) addrs p = refl
