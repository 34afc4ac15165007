-- ===== src/Sockets/Pair.antt =====
-- `pipe_x` of src/lib/61-02.c.
use tlpiexer.Prelude.{ℕ, Bool, not, if◌then◌else◌, ℤ, pos, fn_ok, fn_er, Run, ok, fault}
use tlpiexer.Sockets.{Process, socket, close, close_positive}

-- What the calls answer, in their order: whether each succeeds, and the descriptors of the two calls
-- of `socket` and of `accept`; `connected` is asked about the descriptor that `connect` is given.
pub record Calls : Type 0 where
  pub l_made : Bool
  pub l_fd : ℕ
  pub bound : Bool
  pub listening : Bool
  pub r_made : Bool
  pub r_fd : ℕ
  pub connected : ℤ → Bool
  pub w_made : Bool
  pub w_fd : ℕ
  pub shut_r : Bool
  pub shut_w : Bool

-- The label ERROR; `pipefd` is left as it is.
unfoldable pub on_error : ℤ → ℤ → ℤ → (ℤ × ℤ) → Process → ℤ × (ℤ × ℤ) × Process
on_error l_fd r_fd w_fd pipefd p =
    (fn_er, pipefd, close_positive w_fd (close_positive r_fd (close_positive l_fd p)))

-- From the first `socket` on: the result, what is in `pipefd`, and the process.
unfoldable pub connect_pair : Calls → (ℤ × ℤ) → Process → ℤ × (ℤ × ℤ) × Process
connect_pair c pipefd p =
    let (l_fd, p1) = socket c.l_made c.l_fd p in
    if not c.l_made
    then on_error l_fd (pos 0) (pos 0) pipefd p1
    else if not c.bound
    then on_error l_fd (pos 0) (pos 0) pipefd p1
    else if not c.listening
    then on_error l_fd (pos 0) (pos 0) pipefd p1
    else let (r_fd, p2) = socket c.r_made c.r_fd p1 in
      if not (c.connected r_fd)
      then on_error l_fd r_fd (pos 0) pipefd p2
      else let (w_fd, p3) = socket c.w_made c.w_fd p2 in
        if not c.w_made
        then on_error l_fd r_fd w_fd pipefd p3
        else let p4 = close c.l_fd p3 in
          if not c.shut_r
          then on_error l_fd r_fd w_fd pipefd p4
          else if not c.shut_w
          then on_error l_fd r_fd w_fd pipefd p4
          else (fn_ok, (r_fd, w_fd), p4)

-- The first statement fills as many bytes of `laddr_len`, which has 4, as `laddr` has, 110: `harmless` tells
-- whether the stack is laid out so that the program goes on as if it had not.
unfoldable pub pipe_x : Bool → Calls → (ℤ × ℤ) → Process → Run (ℤ × (ℤ × ℤ) × Process)
pipe_x harmless c pipefd p = if not harmless then fault else ok (connect_pair c pipefd p)
