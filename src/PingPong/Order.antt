-- ===== src/PingPong/Order.antt =====
-- The lines and the semaphores between the two threads of src/imp/53-01.c.
use tlpiexer.Prelude.{
  ℕ, zero, suc, ◌+◌, ◌≡◌, ◌≢◌, ◌⊎◌, inl, inr, refl, Bool, true, false, List, [], ◌∷◌, ◌++◌, Option,
  some, map, arith, append_assoc, append-nil, if◌then◌else◌,
}
use tlpiexer.PingPong.{
  Writer, wait_w, read_line, post_r, ended, Reader, wait_r, show, post_w, Actor, main, thread_1,
  System, initial, turn_main, turn_thread_1, turn, run,
}

-- Who has the right to the buffer, and is in the middle of it.
abbrev pub writing : Writer → ℕ
writing wait_w = 0
writing _ = 1

abbrev pub reading : Reader → ℕ
reading wait_r = 0
reading _ = 1

-- A line stands in the buffer that has not been shown.
abbrev pub pending : Writer → Reader → ℕ → Bool
pending post_r r n = true
pending w show n = true
pending w r zero = false
pending w r (suc n) = true

module _ {Line : Type 0} where
  abbrev pub waiting : System Line → List (Option Line)
  waiting s = if pending s.writer s.reader s.sem_r then s.buffer ∷ [] else []

  pub record Inv (lines : List Line) (s : System Line) : Type 0 where
    pub one : s.sem_w + s.sem_r + writing s.writer + reading s.reader ≡ 1
    pub kept : (s.shown ++ waiting s) ++ map some s.input ≡ map some lines

  main-Inv :
      (lines : List Line) (s : System Line) (w : Writer) (n : ℕ) (input : List Line)
      → s.writer ≡ w
      → s.sem_w ≡ n
      → s.input ≡ input
      → Inv lines s
      → Inv lines (turn_main s w n input)
  unfolding turn_main
  main-Inv lines s wait_w zero input e f g inv = inv
  main-Inv lines s wait_w (suc n) input e f g inv = record {
    one = ground arith;
    kept = ground (arith, inv.one, inv.kept);
  }
  main-Inv lines s read_line n [] e f g inv = record {
    one = ground arith;
    kept = ground (arith, inv.one, inv.kept);
  }
  main-Inv lines s read_line n (l ∷ input) e f g inv = record {
    one = ground arith;
    kept = ground (
      arith,
      inv.one,
      inv.kept,
      append-nil s.shown,
      append_assoc s.shown (some l ∷ []) (map some input),
    );
  }
  main-Inv lines s post_r n input e f g inv = record {
    one = ground arith;
    kept = ground (arith, inv.one, inv.kept);
  }
  main-Inv lines s ended n input e f g inv = inv

  thread_1-Inv :
      (lines : List Line) (s : System Line) (r : Reader) (n : ℕ)
      → s.reader ≡ r
      → s.sem_r ≡ n
      → Inv lines s
      → Inv lines (turn_thread_1 s r n)
  unfolding turn_thread_1
  thread_1-Inv lines s wait_r zero e f inv = inv
  thread_1-Inv lines s wait_r (suc n) e f inv = record {
    one = ground arith;
    kept = ground (arith, inv.one, inv.kept);
  }
  thread_1-Inv lines s show n e f inv = record {
    one = ground arith;
    kept = ground (arith, inv.one, inv.kept, append-nil (s.shown ++ s.buffer ∷ []));
  }
  thread_1-Inv lines s post_w n e f inv = record {
    one = ground arith;
    kept = ground (arith, inv.one, inv.kept);
  }

  turn-Inv :
      (lines : List Line) (a : Actor) (s : System Line) (w : Writer)
      → s.writer ≡ w
      → Inv lines s
      → Inv lines (turn a s w)
  unfolding turn
  turn-Inv lines main s w e inv = main-Inv lines s w s.sem_w s.input e refl refl inv
  turn-Inv lines thread_1 s ended e inv = inv
  turn-Inv lines thread_1 s w e inv = thread_1-Inv lines s s.reader s.sem_r refl refl inv

  pub run-Inv :
      (lines : List Line) (turns : List Actor) (s : System Line)
      → Inv lines s
      → Inv lines (run turns s)
  unfolding run
  run-Inv lines [] s inv = inv
  run-Inv lines (a ∷ turns) s inv =
      run-Inv lines turns (turn a s s.writer) (turn-Inv lines a s s.writer refl inv)

  initial-Inv : (lines : List Line) → Inv lines (initial lines)
  initial-Inv lines = record { one = refl; kept = refl }

  -- In every order of turns, thread 0 is never about to read into the buffer while thread 1 is about to
  -- print it, and what was printed, the line that waits in the buffer and what stdin still holds
  -- are the lines of stdin in their order: none is lost, printed twice or overtaken.
  pub lines_in_order :
      (lines : List Line) (turns : List Actor)
      → let s = run turns (initial lines) in
        ¬ ((s.writer ≡ read_line) × (s.reader ≡ show))
        × ((s.shown ++ waiting s) ++ map some s.input ≡ map some lines)
  lines_in_order lines turns =
      let inv = run-Inv lines turns (initial lines) (initial-Inv lines) in
      (exclusive (run turns (initial lines)) inv, inv.kept)
    where
      exclusive : (s : System Line) → Inv lines s → ¬ ((s.writer ≡ read_line) × (s.reader ≡ show))
      exclusive s inv h = ground (arith, inv.one)

  main_moves :
      (s : System Line) (w : Writer) (n : ℕ) (input : List Line)
      → (w ≡ ended) ⊎ ((w ≡ wait_w) × (n ≡ 0)) ⊎ ((turn_main s w n input).writer ≢ w)
  unfolding turn_main
  main_moves s wait_w zero input = inr (inl (refl, refl))
  main_moves s wait_w (suc n) input = inr (inr (λ e. cc))
  main_moves s read_line n [] = inr (inr (λ e. cc))
  main_moves s read_line n (l ∷ input) = inr (inr (λ e. cc))
  main_moves s post_r n input = inr (inr (λ e. cc))
  main_moves s ended n input = inl refl

  thread_1_moves :
      (s : System Line) (r : Reader) (n : ℕ)
      → ((r ≡ wait_r) × (n ≡ 0)) ⊎ ((turn_thread_1 s r n).reader ≢ r)
  unfolding turn_thread_1
  thread_1_moves s wait_r zero = inl (refl, refl)
  thread_1_moves s wait_r (suc n) = inr (λ e. cc)
  thread_1_moves s show n = inr (λ e. cc)
  thread_1_moves s post_w n = inr (λ e. cc)

  turn_thread_1-alive :
      (s : System Line) (w : Writer)
      → w ≢ ended
      → turn thread_1 s w ≡ turn_thread_1 s s.reader s.sem_r
  unfolding turn
  turn_thread_1-alive s ended ne = absurd (ne refl)
  turn_thread_1-alive s wait_w ne = refl
  turn_thread_1-alive s _ ne = refl

  -- No deadlock: in every order of turns, while the process has not ended one of the two threads
  -- can take a step.
  pub some_turn :
      (lines : List Line) (turns : List Actor)
      → let s = run turns (initial lines) in
        (s.writer ≡ ended)
        ⊎ ((turn main s s.writer).writer ≢ s.writer)
        ⊎ ((turn thread_1 s s.writer).reader ≢ s.reader)
  some_turn lines turns =
      free (run turns (initial lines)) (run-Inv lines turns (initial lines) (initial-Inv lines))
    where
      free :
          (s : System Line)
          → Inv lines s
          → (s.writer ≡ ended)
            ⊎ ((turn main s s.writer).writer ≢ s.writer)
            ⊎ ((turn thread_1 s s.writer).reader ≢ s.reader)
      free s inv = elim (main_moves s s.writer s.sem_w s.input) [
        | inl done ↦ inl done
        | inr (inr m) ↦ inr (inl (unfold turn in m))
        | inr (inl (w, empty)) ↦ elim (thread_1_moves s s.reader s.sem_r) [
          | inl (r, none_there) ↦ ground (arith, inv.one)
          | inr m ↦ inr (inr (rw (turn_thread_1-alive s s.writer (λ e. cc (w, e))) m))
        ]
      ]
