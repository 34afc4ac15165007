-- ===== src/PingPong.antt =====
-- The two threads of src/imp/53-01.c that hand lines over in one buffer, under two semaphores. A
-- turn of a thread is one call; the order of the turns is a list.
pub mod Order
mod Tests
use tlpiexer.Prelude.{ℕ, zero, suc, ◌+◌, Bool, true, false, List, [], ◌∷◌, ◌++◌, Option, none, some}

-- Thread 0 (`main`): before `sem_wait(sem_w)`, before `getline`, before `sem_post(sem_r)`; or the
-- process has ended by `exit_err`.
pub data Writer : Type 0 where
  wait_w read_line post_r ended : Writer

-- Thread 1 (`thread_1_entry`)
pub data Reader : Type 0 where
  wait_r show post_w : Reader

pub data Actor : Type 0 where
  main thread_1 : Actor

-- `Line` is a line of text; `input` is what stdin still holds, `shown` what was printed.
pub record System (Line : Type 0) : Type 0 where
  pub sem_w : ℕ
  pub sem_r : ℕ
  pub buffer : Option Line
  pub writer : Writer
  pub reader : Reader
  pub input : List Line
  pub shown : List (Option Line)

module _ {Line : Type 0} where
  -- `sem_open` with the values 1 and 0, before the first turn
  abbrev pub initial : List Line → System Line
  initial lines = record {
    sem_w = 1;
    sem_r = 0;
    buffer = none;
    writer = wait_w;
    reader = wait_r;
    input = lines;
    shown = [];
  }

  -- A thread whose semaphore is 0 stays where it is; `getline` at the end of the input is -1.
  unfoldable pub turn_main : System Line → Writer → ℕ → List Line → System Line
  turn_main s wait_w zero input = s
  turn_main s wait_w (suc n) input = record s { sem_w = n; writer = read_line }
  turn_main s read_line n [] = record s { writer = ended }
  turn_main s read_line n (l ∷ input) = record s { buffer = some l; input = input; writer = post_r }
  turn_main s post_r n input = record s { sem_r = s.sem_r + 1; writer = wait_w }
  turn_main s ended n input = s

  unfoldable pub turn_thread_1 : System Line → Reader → ℕ → System Line
  turn_thread_1 s wait_r zero = s
  turn_thread_1 s wait_r (suc n) = record s { sem_r = n; reader = show }
  turn_thread_1 s show n = record s { shown = s.shown ++ s.buffer ∷ []; reader = post_w }
  turn_thread_1 s post_w n = record s { sem_w = s.sem_w + 1; reader = wait_r }

  -- When the process has ended, neither thread moves.
  unfoldable pub turn : Actor → System Line → Writer → System Line
  turn main s w = turn_main s w s.sem_w s.input
  turn thread_1 s ended = s
  turn thread_1 s w = turn_thread_1 s s.reader s.sem_r

  unfoldable pub run : List Actor → System Line → System Line
  run [] s = s
  run (a ∷ turns) s = run turns (turn a s s.writer)
