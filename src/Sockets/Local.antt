-- ===== src/Sockets/Local.antt =====
-- `usock_connect` and `usock_listen` of src/lib/59-03.c.
use tlpiexer.Prelude.{ℕ, ◌-◌, Bool, not, ◌∷◌, [], ◌++◌, if◌then◌else◌, ℤ, fn_er}
use tlpiexer.CText.{Bytes, strncpy}
use tlpiexer.Sockets.{Process, socket, close_positive}

-- What the calls answer: whether each succeeds, `bind` and `connect` by the `sun_path` they are given,
-- and the descriptor of `socket`.
pub record Answer : Type 0 where
  pub made : Bool
  pub fd : ℕ
  pub bound : Bytes → Bool
  pub connected : Bytes → Bool
  pub listening : Bool

-- The size of `sun_path`
abbrev pub path_size : ℕ
path_size = 108

-- `memset` of the address, and `strncpy(sun_path + 1, host, sizeof(sun_path) - 1)`
unfoldable pub abstract_path : Bytes → Bytes
abstract_path host = 0 ∷ strncpy (path_size - 1) host

-- `LOCAL_PATH_TMP`, "/tlpiexer-59-03-client"
abbrev pub local_path_tmp : Bytes
local_path_tmp =
    47 ∷ 116 ∷ 108 ∷ 112 ∷ 105 ∷ 101 ∷ 120 ∷ 101 ∷ 114 ∷ 45 ∷ 53 ∷ 57 ∷ 45 ∷ 48 ∷ 51 ∷ 45 ∷ 99 ∷ 108
    ∷ 105 ∷ 101 ∷ 110 ∷ 116 ∷ []

-- `snprintf(sun_path + 1, .., "%s-%u", LOCAL_PATH_TMP, getpid())` over the zeroed address, from the
-- at most ten digits of the process id, which leave room.
unfoldable pub local_path : Bytes → Bytes
local_path pid = abstract_path (local_path_tmp ++ 45 ∷ pid)

-- The process id is given by its digits.
unfoldable pub usock_connect : Answer → Bytes → Bytes → Process → ℤ × Process
usock_connect a pid host p =
    let (lfd, p') = socket a.made a.fd p in
    if not a.made
    then (fn_er, p')
    else if not (a.bound (local_path pid))
    then (fn_er, close_positive lfd p')
    else if not (a.connected (abstract_path host))
    then (fn_er, close_positive lfd p')
    else (lfd, p')

unfoldable pub usock_listen : Answer → Bytes → Process → ℤ × Process
usock_listen a host p =
    let (lfd, p') = socket a.made a.fd p in
    if not a.made
    then (fn_er, p')
    else if not (a.bound (abstract_path host))
    then (fn_er, close_positive lfd p')
    else if not a.listening
    then (fn_er, close_positive lfd p')
    else (lfd, p')
