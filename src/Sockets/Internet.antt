-- ===== src/Sockets/Internet.antt =====
-- `isock_connect`, `isock_listen` and `isock_bind` of src/lib/59-04-isock.c.
use tlpiexer.Prelude.{
  ℕ, zero, suc, Bool, true, false, not, Option, none, some, List, [], ◌∷◌, ◌-◌, if◌then◌else◌, ℤ,
  pos, fn_ok, fn_er,
}
use tlpiexer.Sockets.{Process, socket, close}

-- What the calls answer for one address of the list: whether each succeeds, and the descriptor of
-- `socket`.
pub record Address : Type 0 where
  pub made : Bool
  pub fd : ℕ
  pub optioned : Bool
  pub bound : Bool
  pub listening : Bool
  pub connected : Bool

-- `getaddrinfo` that returns 0 gives out a list, which `freeaddrinfo` takes back.
abbrev pub with_list : Process → Process
with_list p = record p { addr_lists = suc p.addr_lists }

abbrev pub freeaddrinfo : Process → Process
freeaddrinfo p = record p { addr_lists = p.addr_lists - 1 }

-- The loops over the list; `none` is `addr == NULL` behind it.
unfoldable pub connect_loop : List Address → Process → Option ℤ × Process
connect_loop [] p = (none, p)
connect_loop (a ∷ addrs) p =
    let (lfd, p') = socket a.made a.fd p in
    if not a.made
    then connect_loop addrs p'
    else if not a.connected
    then connect_loop addrs (close a.fd p')
    else (some lfd, p')

unfoldable pub listen_loop : List Address → Process → Option ℤ × Process
listen_loop [] p = (none, p)
listen_loop (a ∷ addrs) p =
    let (lfd, p') = socket a.made a.fd p in
    if not a.made
    then listen_loop addrs p'
    else if not a.optioned
    then listen_loop addrs (close a.fd p')
    else if not a.bound
    then listen_loop addrs (close a.fd p')
    else if not a.listening
    then listen_loop addrs (close a.fd p')
    else (some lfd, p')

unfoldable pub bind_loop : List Address → Bool
bind_loop [] = false
bind_loop (a ∷ addrs) = if not a.bound then bind_loop addrs else true

abbrev pub fd_or_error : Option ℤ × Process → ℤ × Process
fd_or_error (none, p) = (fn_er, freeaddrinfo p)
fd_or_error (some lfd, p) = (lfd, freeaddrinfo p)

-- `gai` is what `getaddrinfo` returns, and `addrs` the list that it gives out if that is 0.
unfoldable pub isock_connect : ℤ → List Address → Process → ℤ × Process
isock_connect (pos zero) addrs p = fd_or_error (connect_loop addrs (with_list p))
isock_connect gai addrs p = (gai, p)

unfoldable pub isock_listen : ℤ → List Address → Process → ℤ × Process
isock_listen (pos zero) addrs p = fd_or_error (listen_loop addrs (with_list p))
isock_listen gai addrs p = (gai, p)

unfoldable pub isock_bind : ℤ → List Address → Process → ℤ × Process
isock_bind (pos zero) addrs p =
    let found = bind_loop addrs in
    let p' = freeaddrinfo (with_list p) in
    if found then (fn_ok, record p' { errno = 0 }) else (fn_er, p')
isock_bind gai addrs p = (gai, p)
