-- ===== src/Sockets/Closes.antt =====
-- The descriptors of `pipe_x` (src/lib/61-02.c) on every branch.
use tlpiexer.Prelude.{
  ℕ, zero, suc, ◌≡◌, ◌≢◌, refl, ap, ◌∙◌, Bool, true, false, ◌&&◌, none, some, List, ◌∷◌, ◌==◌,
  if◌then◌else◌, arith, Bool-cases, inl, inr, ℤ, pos, fn_ok, fn_er, not, ok, fault,
}
use tlpiexer.Sockets.{Process, without, close, socket, close_positive}
use tlpiexer.Sockets.Pair.{Calls, on_error, connect_pair, pipe_x}

-- The three descriptors are not standard input, differ, and are not held before.
pub record Fresh (c : Calls) (p : Process) : Type 0 where
  pub l_pos : c.l_fd ≢ 0
  pub r_pos : c.r_fd ≢ 0
  pub w_pos : c.w_fd ≢ 0
  pub l_r : c.l_fd ≢ c.r_fd
  pub l_w : c.l_fd ≢ c.w_fd
  pub r_w : c.r_fd ≢ c.w_fd
  pub l_new : without c.l_fd p.fds ≡ none

-- Every call up to `accept` succeeds.
abbrev pub accepted : Calls → Bool
accepted c =
    c.l_made && (c.bound && (c.listening && (c.r_made && (c.connected (pos c.r_fd) && c.w_made))))

module _ (a : ℕ) where
  without-head : (xs : List ℕ) → without a (a ∷ xs) ≡ some xs
  unfolding without
  without-head xs = let e : (a == a) ≡ true = ground arith in rw e

  without-skip :
      (b : ℕ) (xs ys : List ℕ) → a ≢ b → without a xs ≡ some ys → without a (b ∷ xs) ≡ some (b ∷ ys)
  unfolding without
  without-skip b xs ys ne e = let d : (a == b) ≡ false = ground arith in rw (d, e)

  without-absent : (b : ℕ) (xs : List ℕ) → a ≢ b → without a xs ≡ none → without a (b ∷ xs) ≡ none
  unfolding without
  without-absent b xs ne e = let d : (a == b) ≡ false = ground arith in rw (d, e)

  close_positive-close : a ≢ 0 → (p : Process) → close_positive (pos a) p ≡ close a p
  unfolding close_positive
  close_positive-close ne p = go a ne
    where
      go : (n : ℕ) → n ≢ 0 → close_positive (pos n) p ≡ close n p
      go zero ne = absurd (ne refl)
      go (suc n) ne = refl

  close-some :
      (p : Process) (ys : List ℕ) → without a p.fds ≡ some ys → close a p ≡ record p { fds = ys }
  unfolding close
  close-some p ys e = rw (close, e)

  close-none :
      (p : Process)
      → without a p.fds ≡ none
      → close a p ≡ record p { bad_closes = suc p.bad_closes }
  unfolding close
  close-none p e = rw (close, e)

module _ (c : Calls) (p : Process) (f : Fresh c p) where
  abbrev l : ℕ
  l = c.l_fd

  abbrev r : ℕ
  r = c.r_fd

  abbrev w : ℕ
  w = c.w_fd

  -- Closing in the order of the label, with one, two and three of the descriptors open.
  listener_closed : close l (record p { fds = l ∷ p.fds }) ≡ p
  listener_closed = close-some l _ p.fds (without-head l p.fds)

  listener_closed_two : close l (record p { fds = r ∷ l ∷ p.fds }) ≡ record p { fds = r ∷ p.fds }
  listener_closed_two =
      close-some l _ (r ∷ p.fds) (without-skip l r _ _ f.l_r (without-head l p.fds))

  listener_closed_three :
      close l (record p { fds = w ∷ r ∷ l ∷ p.fds }) ≡ record p { fds = w ∷ r ∷ p.fds }
  listener_closed_three =
      close-some l _ (w ∷ r ∷ p.fds)
        (without-skip l w _ _ f.l_w (without-skip l r _ _ f.l_r (without-head l p.fds)))

  -- The second time.
  listener_closed_again :
      close l (record p { fds = w ∷ r ∷ p.fds })
      ≡ record p { fds = w ∷ r ∷ p.fds; bad_closes = suc p.bad_closes }
  listener_closed_again =
      close-none l _ (without-absent l w _ f.l_w (without-absent l r p.fds f.l_r f.l_new))

  module _ (n : ℕ) where
    reader_closed :
        close r (record p { fds = r ∷ p.fds; bad_closes = n }) ≡ record p { bad_closes = n }
    reader_closed = close-some r _ p.fds (without-head r p.fds)

    reader_closed_two :
        close r (record p { fds = w ∷ r ∷ p.fds; bad_closes = n })
        ≡ record p { fds = w ∷ p.fds; bad_closes = n }
    reader_closed_two =
        close-some r _ (w ∷ p.fds) (without-skip r w _ _ f.r_w (without-head r p.fds))

    writer_closed :
        close w (record p { fds = w ∷ p.fds; bad_closes = n }) ≡ record p { bad_closes = n }
    writer_closed = close-some w _ p.fds (without-head w p.fds)

  -- The descriptors that were not made are 0 or -1, which the label leaves alone.
  module _ (z : ℤ) (idle : (q : Process) → close_positive z q ≡ q) (pipefd : ℤ × ℤ) where
    err_l :
        (y : ℤ)
        → ((q : Process) → close_positive y q ≡ q)
        → on_error (pos l) y z pipefd (record p { fds = l ∷ p.fds }) ≡ (fn_er, pipefd, p)
    unfolding on_error
    err_l y idle_y =
        ap (λ q. (fn_er, pipefd, q))
          (idle _ ∙ idle_y _ ∙ close_positive-close l f.l_pos _ ∙ listener_closed)

    err_r :
        on_error (pos l) (pos r) z pipefd (record p { fds = r ∷ l ∷ p.fds }) ≡ (fn_er, pipefd, p)
    unfolding on_error
    err_r =
        ap (λ q. (fn_er, pipefd, q))
          (idle _
            ∙ close_positive-close r f.r_pos _
            ∙ ap (close r) (close_positive-close l f.l_pos _ ∙ listener_closed_two)
            ∙ reader_closed p.bad_closes)

  -- The pair is open, and the calls of `close` are to count as `n` in vain.
  err_w :
      (n : ℕ) (q : Process)
      → close l q ≡ record p { fds = w ∷ r ∷ p.fds; bad_closes = n }
      → (pipefd : ℤ × ℤ)
      → on_error (pos l) (pos r) (pos w) pipefd q ≡ (fn_er, pipefd, record p { bad_closes = n })
  unfolding on_error
  err_w n q e pipefd =
      ap (λ q. (fn_er, pipefd, q))
        (close_positive-close w f.w_pos _
          ∙ ap (close w) (
              close_positive-close r f.r_pos _
              ∙ ap (close r) (close_positive-close l f.l_pos q ∙ e)
              ∙ reader_closed_two n)
          ∙ writer_closed n)

  -- A `shutdown` fails, with the listening descriptor closed already.
  shutdown_failed :
      (pipefd : ℤ × ℤ)
      → on_error (pos l) (pos r) (pos w) pipefd (close l (record p { fds = w ∷ r ∷ l ∷ p.fds }))
        ≡ (fn_er, pipefd, record p { bad_closes = suc p.bad_closes })
  shutdown_failed =
      err_w (suc p.bad_closes) _ (ap (close l) listener_closed_three ∙ listener_closed_again)

-- `pipe_x` without its first statement.
connect_pair-owned :
    (c : Calls) (pipefd : ℤ × ℤ) (p : Process)
    → Fresh c p
    → c.connected fn_er ≡ false
    → connect_pair c pipefd p ≡ (
        if accepted c
        then (if c.shut_r && c.shut_w
            then (fn_ok, (pos c.r_fd, pos c.w_fd), record p { fds = c.w_fd ∷ c.r_fd ∷ p.fds })
            else (fn_er, pipefd, record p { bad_closes = suc p.bad_closes }))
        else (fn_er, pipefd, p))
unfolding connect_pair socket close_positive
connect_pair-owned c pipefd p f refuses = elim (Bool-cases c.l_made) [
  | inr off ↦ rw off (unfold on_error in refl)
  | inl e1 ↦ elim (Bool-cases c.bound) [
    | inr off ↦ rw (e1, off) (err_l c p f (pos 0) (λ q. refl) pipefd (pos 0) (λ q. refl))
    | inl e2 ↦ elim (Bool-cases c.listening) [
      | inr off ↦ rw (e1, e2, off) (err_l c p f (pos 0) (λ q. refl) pipefd (pos 0) (λ q. refl))
      | inl e3 ↦ elim (Bool-cases c.r_made) [
        | inr off ↦
            rw (e1, e2, e3, off, refuses) (err_l c p f (pos 0) (λ q. refl) pipefd fn_er (λ q. refl))
        | inl e4 ↦ elim (Bool-cases (c.connected (pos c.r_fd))) [
          | inr off ↦ rw (e1, e2, e3, e4, off) (err_r c p f (pos 0) (λ q. refl) pipefd)
          | inl e5 ↦ elim (Bool-cases c.w_made) [
            | inr off ↦ rw (e1, e2, e3, e4, e5, off) (err_r c p f fn_er (λ q. refl) pipefd)
            | inl e6 ↦ elim (Bool-cases c.shut_r) [
              | inr off ↦ rw (e1, e2, e3, e4, e5, e6, off) (shutdown_failed c p f pipefd)
              | inl e7 ↦ elim (Bool-cases c.shut_w) [
                | inr off ↦ rw (e1, e2, e3, e4, e5, e6, e7, off) (shutdown_failed c p f pipefd)
                | inl e8 ↦ rw (e1, e2, e3, e4, e5, e6, e7, e8, listener_closed_three c p f)
              ]
            ]
          ]
        ]
      ]
    ]
  ]
]

-- The write behind `laddr_len` that `pipe_x` starts with is undefined behaviour, unless the stack is laid out
-- so that it does no harm. If it is, and the three descriptors are not 0, differ and are new, and `connect`
-- fails on -1: if all calls succeed the pair of descriptors is returned and open, and nothing else in
-- addition; otherwise the result is -1, `pipefd` is as it was and nothing is left open, but where `accept`
-- succeeded and a `shutdown` did not, the listening descriptor is closed a second time.
pub pipe_x-owned :
    (harmless : Bool) (c : Calls) (pipefd : ℤ × ℤ) (p : Process)
    → Fresh c p
    → c.connected fn_er ≡ false
    → pipe_x harmless c pipefd p ≡ (
        if not harmless
        then fault
        else ok (
            if accepted c
            then (if c.shut_r && c.shut_w
                then (fn_ok, (pos c.r_fd, pos c.w_fd), record p { fds = c.w_fd ∷ c.r_fd ∷ p.fds })
                else (fn_er, pipefd, record p { bad_closes = suc p.bad_closes }))
            else (fn_er, pipefd, p)))
unfolding pipe_x
pipe_x-owned harmless c pipefd p f refuses = rw (connect_pair-owned c pipefd p f refuses)
