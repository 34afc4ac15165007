-- ===== src/Sockets/Owned.antt =====
-- The descriptors and the addresses of `usock_connect` and `usock_listen` (src/lib/59-03.c).
use tlpiexer.Prelude.{
  ℕ, zero, suc, ◌≡◌, ◌↔◌, refl, ap, take, drop, true, ◌&&◌, ◌∷◌, ◌==◌, if◌then◌else◌, arith,
  Bool-cases, inl, inr, pos, fn_er,
}
use tlpiexer.CText.{Bytes, NoNul, strncpy-take}
use tlpiexer.Sockets.{Process, without, close, socket, close_positive}
use tlpiexer.Sockets.Local.{Answer, abstract_path, usock_listen}

-- `fd` behind some other descriptors that are held.
close-same : (fd : ℕ) (p : Process) → close fd (record p { fds = fd ∷ p.fds }) ≡ p
unfolding close without
close-same fd p = let e : (fd == fd) ≡ true = ground arith in rw (close, without, e)

-- What an error leaves: a descriptor 0 that `socket` gave out stays open.
abbrev pub kept_zero : ℕ → Process → Process
kept_zero zero p = record p { fds = zero ∷ p.fds }
kept_zero (suc n) p = p

close_positive-kept :
    (fd : ℕ) (p : Process)
    → close_positive (pos fd) (record p { fds = fd ∷ p.fds }) ≡ kept_zero fd p
unfolding close_positive
close_positive-kept zero p = refl
close_positive-kept (suc n) p = close-same (suc n) p

-- Two names without a NUL give one socket address exactly when their first 107 bytes agree: the
-- rest is cut off.
pub abstract_path-take :
    (a b : Bytes)
    → NoNul a
    → NoNul b
    → (abstract_path a ≡ abstract_path b) ↔ (take 107 a ≡ take 107 b)
unfolding abstract_path
abstract_path-take a b na nb =
    let (there, back) = strncpy-take 107 a b na nb in
    (λ h. there (ap (drop 1) h), λ h. ap (λ s. 0 ∷ s) (back h))

-- `usock_listen` returns a listening socket bound to the host's path, or -1; then nothing is left open, unless the socket was
-- descriptor 0.
pub usock_listen-owned :
    (a : Answer) (host : Bytes) (p : Process)
    → usock_listen a host p ≡ (
        if a.made && (a.bound (abstract_path host) && a.listening)
        then (pos a.fd, record p { fds = a.fd ∷ p.fds })
        else (fn_er, if a.made then kept_zero a.fd p else p))
unfolding usock_listen socket
usock_listen-owned a host p = elim (Bool-cases a.made) [
  | inr off ↦ rw off
  | inl made ↦ elim (Bool-cases (a.bound (abstract_path host))) [
    | inr off ↦ rw (made, off, close_positive-kept a.fd p)
    | inl bound ↦ elim (Bool-cases a.listening) [
      | inr off ↦ rw (made, bound, off, close_positive-kept a.fd p)
      | inl listening ↦ rw (made, bound, listening)
    ]
  ]
]
