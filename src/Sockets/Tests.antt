-- ===== src/Sockets/Tests.antt =====
-- Runs of the socket helpers of src/lib/59-04-isock.c, src/lib/59-03.c and src/lib/61-02.c.
use tlpiexer.Prelude.{
  ok, ◌≡◌, refl, true, false, ◌&&◌, [], ◌∷◌, List, if◌then◌else◌, pos, negsuc, fn_ok, fn_er, arith,
}
use tlpiexer.CText.{Bytes, strcmp_eq}
use tlpiexer.Sockets.{Process, without}
use tlpiexer.Sockets.Internet.{Address, isock_connect}
use tlpiexer.Sockets.Pair.{Calls, pipe_x}
use tlpiexer.Sockets.Local.{Answer, abstract_path}
use tlpiexer.Sockets.Closes.{Fresh, accepted, pipe_x-owned}

abbrev std_streams : Process
std_streams = record { fds = 0 ∷ 1 ∷ 2 ∷ []; addr_lists = 0; bad_closes = 0; errno = 0 }

-- An address that refuses, and one that works.
abbrev addresses : List Address
addresses =
    record {
      made = true;
      fd = 3;
      optioned = true;
      bound = false;
      listening = false;
      connected = false;
    }
    ∷ record {
      made = true;
      fd = 3;
      optioned = true;
      bound = true;
      listening = true;
      connected = true;
    }
    ∷ []

-- `getaddrinfo` fails with -2 (EAI_NONAME): the caller, which compares with -1, takes it for a descriptor.
no_name : isock_connect (negsuc 1) [] std_streams ≡ (negsuc 1, std_streams)
unfolding isock_connect
no_name = refl

abbrev host_a : Bytes
host_a = 97 ∷ []

abbrev pid_7 : Bytes
pid_7 = 55 ∷ []

-- Only the host's own path is free to bind, and connects.
abbrev free : Answer
free = record {
  made = true;
  fd = 3;
  bound = λ s. strcmp_eq s (abstract_path host_a);
  connected = λ s. strcmp_eq s (abstract_path host_a);
  listening = true;
}

abbrev host_b : Bytes
host_b = 98 ∷ []

-- Everything works but the last `shutdown`.
abbrev half : Calls
half = record {
  l_made = true;
  l_fd = 3;
  bound = true;
  listening = true;
  r_made = true;
  r_fd = 4;
  connected = λ fd. elim fd [ pos n ↦ true | negsuc n ↦ false ];
  w_made = true;
  w_fd = 5;
  shut_r = true;
  shut_w = false;
}

half-Fresh : Fresh half std_streams
unfolding without
half-Fresh = record {
  l_pos = λ e. omega arith;
  r_pos = λ e. omega arith;
  w_pos = λ e. omega arith;
  l_r = λ e. omega arith;
  l_w = λ e. omega arith;
  r_w = λ e. omega arith;
  l_new = refl;
}

pipe_x-owned_example :
    pipe_x true half (pos 0, pos 0) std_streams
    ≡ ok (
        if accepted half
        then (if half.shut_r && half.shut_w
            then (fn_ok, (pos 4, pos 5), record std_streams { fds = 5 ∷ 4 ∷ std_streams.fds })
            else (fn_er, (pos 0, pos 0), record std_streams { bad_closes = 1 }))
        else (fn_er, (pos 0, pos 0), std_streams))
pipe_x-owned_example = pipe_x-owned true half (pos 0, pos 0) std_streams half-Fresh refl

-- `connect` fails, with standard input closed before, so that the socket is descriptor 0.
abbrev refused : Answer
refused = record {
  made = true;
  fd = 0;
  bound = λ path. true;
  connected = λ path. false;
  listening = true;
}

abbrev no_input : Process
no_input = record { fds = 1 ∷ 2 ∷ []; addr_lists = 0; bad_closes = 0; errno = 0 }
